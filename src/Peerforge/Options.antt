-- ===== src/Peerforge/Options.antt =====
-- tools/peerforge/options.c. The usage text is not modelled.
use tund.Base.{
  ℕ, ◌≤◌, ◌%◌, ◌^◌, Bool, true, false, not, ◌&&◌, ◌||◌, List, [], ◌∷◌, Option, none, some, ◌≡◌,
  refl, subst, arith, inl, inr, Bool-cases, ltb, ◌==◌, if◌then◌else◌, length,
}
use tund.Peerforge.{same_text}

-- `peerforge_options_t`; a pointer that is NULL is none.
pub record Options : Type 0 where
  pub server : Option (List ℕ)
  pub key : Option (List ℕ)
  pub port : ℕ
  pub clients : ℕ
  pub timeout_ms : ℕ
  pub keepalives : ℕ
  pub data_pairs : ℕ

-- What `strtol` gives: the number, whether it read a digit, and the rest.
pub record Number : Type 0 where
  pub negative : Bool
  pub magnitude : ℕ
  pub read : Bool
  pub rest : List ℕ

-- PEERFORGE_MAX_CLIENTS
abbrev pub max_clients : ℕ
max_clients = 253

abbrev pub default_options : Options
default_options = record {
  server = none;
  key = none;
  port = 9909;
  clients = 32;
  timeout_ms = 3000;
  keepalives = 1;
  data_pairs = 0;
}

-- `parse_long` between two bounds that are not negative.
unfoldable pub parse_long : (List ℕ → Number) → List ℕ → ℕ → ℕ → Option ℕ
parse_long strtol value lo hi =
    let n = strtol value in
    if not n.read || not (length n.rest == 0)
    then none
    else if n.negative && not (n.magnitude == 0)
    then none
    else if ltb n.magnitude lo || ltb hi n.magnitude
    then none
    else some n.magnitude

-- The number of an option, put where it belongs.
unfoldable pub set_number : Option ℕ → (ℕ → Options) → Option Options
set_number none put = none
set_number (some n) put = some (put n)

-- An option and its value; none where the source returns false.
unfoldable pub apply_option : (List ℕ → Number) → Options → List ℕ → List ℕ → Option Options
unfolding set_number
apply_option strtol o name value =
    if same_text name (b'-' ∷ b's' ∷ [])
    then some (record o { server = some value })
    else if same_text name (b'-' ∷ b'k' ∷ [])
    then some (record o { key = some value })
    else if same_text name (b'-' ∷ b'p' ∷ [])
    then set_number (parse_long strtol value 1 65535) (λ n. record o { port = n % 2 ^ 16 })
    else if same_text name (b'-' ∷ b'n' ∷ [])
    then set_number (parse_long strtol value 1 max_clients) (λ n. record o { clients = n })
    else if same_text name (b'-' ∷ b't' ∷ [])
    then set_number (parse_long strtol value 1 60000) (λ n. record o { timeout_ms = n })
    else if same_text name (b'-' ∷ b'K' ∷ [])
    then set_number (parse_long strtol value 0 1000) (λ n. record o { keepalives = n })
    else if same_text name (b'-' ∷ b'd' ∷ [])
    then set_number (parse_long strtol value 0 1000000) (λ n. record o { data_pairs = n })
    else none

abbrev pub asks_help : List ℕ → Bool
asks_help name =
    same_text name (b'-' ∷ b'h' ∷ [])
    || same_text name (b'-' ∷ b'-' ∷ b'h' ∷ b'e' ∷ b'l' ∷ b'p' ∷ [])

-- How the parsing ends: `exit(0)`, false, or true with the options.
pub data Parsed : Type 0 where
  help_shown refused : Parsed
  accepted : Options → Parsed

-- The checks behind the loop.
unfoldable pub check_options : Options → Parsed
check_options o = elim o.server [
  | none ↦ refused
  | some s ↦ elim o.key [
    | none ↦ refused
    | some k ↦ if ltb (length k) 12 then refused else accepted o
  ]
]

-- The arguments without the program's name.
unfoldable pub parse_options : (List ℕ → Number) → Options → List (List ℕ) → Parsed
unfolding check_options apply_option
parse_options strtol o [] = check_options o
parse_options strtol o (name ∷ []) = if asks_help name then help_shown else refused
parse_options strtol o (name ∷ value ∷ args) =
    if asks_help name then help_shown else elim (apply_option strtol o name value) [
      | none ↦ refused
      | some o' ↦ parse_options strtol o' args
    ]

-- The numbers are in their ranges.
pub record InRange (o : Options) : Type 0 where
  pub port : (1 ≤ o.port) × (o.port ≤ 65535)
  pub clients : (1 ≤ o.clients) × (o.clients ≤ max_clients)
  pub timeout_ms : (1 ≤ o.timeout_ms) × (o.timeout_ms ≤ 60000)
  pub keepalives : o.keepalives ≤ 1000
  pub data_pairs : o.data_pairs ≤ 1000000

-- The options that a test can be run with.
pub record IsRunnable (o : Options) : Type 0 where
  pub ranges : InRange o
  pub address : List ℕ
  pub has_address : o.server ≡ some address
  pub passphrase : List ℕ
  pub has_passphrase : o.key ≡ some passphrase
  pub long : 12 ≤ length passphrase

parse_long-bounds :
    (strtol : List ℕ → Number) (value : List ℕ) (lo hi n : ℕ)
    → parse_long strtol value lo hi ≡ some n
    → (lo ≤ n) × (n ≤ hi)
unfolding parse_long
parse_long-bounds strtol value lo hi n e = ground arith

-- Options that are in range, if there are any.
abbrev Keeps : Option Options → Type 0
Keeps none = Unit
Keeps (some o) = InRange o

either : (b : Bool) (x y : Option Options) → Keeps x → Keeps y → Keeps (if b then x else y)
either true x y p q = p
either false x y p q = q

set_number-Keeps :
    (strtol : List ℕ → Number) (value : List ℕ) (lo hi : ℕ) (put : ℕ → Options)
    → ((n : ℕ) → lo ≤ n → n ≤ hi → InRange (put n))
    → Keeps (set_number (parse_long strtol value lo hi) put)
unfolding set_number
set_number-Keeps strtol value lo hi put fits =
    by_number (parse_long strtol value lo hi) (λ n e. parse_long-bounds strtol value lo hi n e)
  where
    by_number :
        (r : Option ℕ) → ((n : ℕ) → r ≡ some n → (lo ≤ n) × (n ≤ hi)) → Keeps (set_number r put)
    by_number none bounds = tt
    by_number (some n) bounds = let (low, high) = bounds n refl in fits n low high

apply_option-Keeps :
    (strtol : List ℕ → Number) (o : Options) (name value : List ℕ)
    → InRange o
    → Keeps (apply_option strtol o name value)
unfolding apply_option
apply_option-Keeps strtol o name value v =
    either (same_text name _) (some (record o { server = some value })) _
      (with_texts (some value) o.key)
      (either (same_text name _) (some (record o { key = some value })) _
        (with_texts o.server (some value))
        (either (same_text name _) _ _
          (set_number-Keeps strtol value 1 65535 _ (λ n low high. record {
            port = (omega arith, omega arith);
            clients = v.clients;
            timeout_ms = v.timeout_ms;
            keepalives = v.keepalives;
            data_pairs = v.data_pairs;
          }))
          (either (same_text name _) _ _
            (set_number-Keeps strtol value 1 max_clients _ (λ n low high. record {
              port = v.port;
              clients = (low, high);
              timeout_ms = v.timeout_ms;
              keepalives = v.keepalives;
              data_pairs = v.data_pairs;
            }))
            (either (same_text name _) _ _
              (set_number-Keeps strtol value 1 60000 _ (λ n low high. record {
                port = v.port;
                clients = v.clients;
                timeout_ms = (low, high);
                keepalives = v.keepalives;
                data_pairs = v.data_pairs;
              }))
              (either (same_text name _) _ _
                (set_number-Keeps strtol value 0 1000 _ (λ n low high. record {
                  port = v.port;
                  clients = v.clients;
                  timeout_ms = v.timeout_ms;
                  keepalives = high;
                  data_pairs = v.data_pairs;
                }))
                (either (same_text name _) _ none
                  (set_number-Keeps strtol value 0 1000000 _ (λ n low high. record {
                    port = v.port;
                    clients = v.clients;
                    timeout_ms = v.timeout_ms;
                    keepalives = v.keepalives;
                    data_pairs = high;
                  }))
                  tt))))))
  where
    with_texts : (s k : Option (List ℕ)) → InRange (record o { server = s; key = k })
    with_texts s k = record {
      port = v.port;
      clients = v.clients;
      timeout_ms = v.timeout_ms;
      keepalives = v.keepalives;
      data_pairs = v.data_pairs;
    }

-- What the parsing accepts can be run.
abbrev Accepts : Parsed → Type 0
Accepts (accepted o) = IsRunnable o
Accepts _ = Unit

check_options-Accepts : (o : Options) → InRange o → Accepts (check_options o)
unfolding check_options
check_options-Accepts o v = by_texts o.server o.key refl refl
  where
    by_texts :
        (s k : Option (List ℕ))
        → o.server ≡ s
        → o.key ≡ k
        → Accepts (elim s as (λ _. Parsed) [
          | none ↦ refused
          | some a ↦ elim k as (λ _. Parsed) [
            | none ↦ refused
            | some p ↦ if ltb (length p) 12 then refused else accepted o
          ]
        ])
    by_texts none k es ek = tt
    by_texts (some a) none es ek = tt
    by_texts (some a) (some p) es ek = elim (Bool-cases (ltb (length p) 12)) [
      | inl short ↦ rw short tt
      | inr long ↦ rw long (record {
        ranges = v;
        address = a;
        has_address = es;
        passphrase = p;
        has_passphrase = ek;
        long = ground arith;
      })
    ]

choose : (b : Bool) (x y : Parsed) → Accepts x → Accepts y → Accepts (if b then x else y)
choose true x y p q = p
choose false x y p q = q

parse_options-Accepts :
    (strtol : List ℕ → Number) (o : Options) (args : List (List ℕ))
    → InRange o
    → Accepts (parse_options strtol o args)
unfolding parse_options
parse_options-Accepts strtol o [] v = check_options-Accepts o v
parse_options-Accepts strtol o (name ∷ []) v = choose (asks_help name) help_shown refused tt tt
parse_options-Accepts strtol o (name ∷ value ∷ args) v = choose (asks_help name) help_shown _ tt (
    by_option (apply_option strtol o name value) (apply_option-Keeps strtol o name value v)
      (λ o' u. parse_options-Accepts strtol o' args u))
  where
    by_option :
        (r : Option Options)
        → Keeps r
        → ((o' : Options) → InRange o' → Accepts (parse_options strtol o' args))
        → Accepts
            (elim r as (λ _. Parsed) [ none ↦ refused | some o' ↦ parse_options strtol o' args ])
    by_option none k rest = tt
    by_option (some o') k rest = rest o' k

default_options-InRange : InRange default_options
default_options-InRange = record {
  port = (omega arith, omega arith);
  clients = (omega arith, omega arith);
  timeout_ms = (omega arith, omega arith);
  keepalives = omega arith;
  data_pairs = omega arith;
}

-- The options that the tester accepts have a server, a key of at least 12 characters, a port of 1
-- to 65535, 1 to 253 clients, a timeout of 1 to 60000 milliseconds, at most 1000 rounds and at
-- most 1000000 pairs.
pub parse_options-IsRunnable :
    (strtol : List ℕ → Number) (args : List (List ℕ)) (o : Options)
    → parse_options strtol default_options args ≡ accepted o
    → IsRunnable o
parse_options-IsRunnable strtol args o e =
    subst Accepts e (parse_options-Accepts strtol default_options args default_options-InRange)
