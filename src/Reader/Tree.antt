-- ===== src/Reader/Tree.antt =====
-- What the reader of the configuration uses of `boost::property_tree` and of the files, and how a
-- reading ends. The trees are a parameter: their children in order, the child at a path and the value
-- of a node, of which the documentation says that a node without a number that fits its type is an
-- exception. `get<T>(path)` is `get_child(path).get_value<T>()`.
use application_aware_resour.Prelude.{
  ℕ, suc, ◌+◌, ◌-◌, ◌*◌, ◌^◌, ◌<◌, ◌≡◌, refl, subst, List, [], ◌∷◌, Option, none, some, Bool,
  String, ◌==◌, ltb, leb, ◌&&◌, if◌then◌else◌, ℤ, pos, negsuc,
}
use application_aware_resour.Map.{Map, assign}
use application_aware_resour.Uuid.Hex.{skip_spaces}
use Prim.Native.Char.{code}

-- The exceptions of a reading.
pub data Fault : Type 0 where
  no_file : Fault
  no_json : Fault
  bad_path : Fault
  bad_data : Fault
  invalid_argument : Fault
  out_of_range : Fault

pub data Result {ℓ} (A : Type ℓ) : Type ℓ where
  ok : A → Result A
  fault : Fault → Result A

infixl 5 ◌>>=◌
abbrev pub ◌>>=◌ {ℓ κ} : {A : Type ℓ} {B : Type κ} → Result A → (A → Result B) → Result B
ok a >>= f = f a
fault e >>= f = fault e

pub >>=-assoc {ℓ κ μ} :
    {A : Type ℓ} {B : Type κ} {C : Type μ} (m : Result A) (f : A → Result B) (g : B → Result C)
    → ((m >>= f) >>= g) ≡ (m >>= λ a. f a >>= g)
>>=-assoc (ok a) f g = refl
>>=-assoc (fault e) f g = refl

pub ok_inj {ℓ} : {A : Type ℓ} {a b : A} → ok a ≡ ok b → a ≡ b
ok_inj h = cc

abbrev pub or_fault {ℓ} : {A : Type ℓ} → Fault → Option A → Result A
or_fault e none = fault e
or_fault e (some a) = ok a

-- What holds of the value of a reading that succeeds.
pub data Ensures {ℓ κ} {A : Type ℓ} (P : A → Type κ) : Result A → Type (ℓ ⊔ κ) where
  holds : (a : A) → P a → Ensures P (ok a)
  faults : (e : Fault) → Ensures P (fault e)

pub Ensures-ok {ℓ κ} :
    {A : Type ℓ} {P : A → Type κ} {r : Result A} {a : A} → Ensures P r → r ≡ ok a → P a
Ensures-ok {P} (holds b h) e = subst P (ok_inj e) h
Ensures-ok (faults f) e = cc

pub Ensures-of {ℓ κ} :
    {A : Type ℓ} {P : A → Type κ} (r : Result A) → ((a : A) → r ≡ ok a → P a) → Ensures P r
Ensures-of (ok a) h = holds a (h a refl)
Ensures-of (fault e) h = faults e

-- Without a claim on the first value, and with one.
pub bind-Ensures {ℓ κ μ} :
    {A : Type ℓ} {B : Type κ} {Q : B → Type μ} (m : Result A) (f : A → Result B)
    → ((a : A) → Ensures Q (f a))
    → Ensures Q (m >>= f)
bind-Ensures (ok a) f h = h a
bind-Ensures (fault e) f h = faults e

pub then-Ensures {ℓ κ μ ν} :
    {A : Type ℓ} {B : Type κ} {P : A → Type μ} {Q : B → Type ν} {m : Result A} (f : A → Result B)
    → Ensures P m
    → ((a : A) → P a → Ensures Q (f a))
    → Ensures Q (m >>= f)
then-Ensures f (holds a p) h = h a p
then-Ensures f (faults e) h = faults e

or_fault-Ensures {ℓ κ} :
    {A : Type ℓ} {P : A → Type κ} (e : Fault) (o : Option A)
    → ((a : A) → o ≡ some a → P a)
    → Ensures P (or_fault e o)
or_fault-Ensures e none h = faults e
or_fault-Ensures e (some a) h = holds a (h a refl)

pub record PropertyTree : Type 1 where
  pub Tree : Type 0
  pub children : Tree → List (String × Tree)
  pub child_at : String → Tree → Option Tree
  pub uint32_value : Tree → Option ℕ
  pub uint64_value : Tree → Option ℕ
  pub bool_value : Tree → Option Bool
  pub string_value : Tree → Option String
  pub uint32_fits : (t : Tree) (n : ℕ) → uint32_value t ≡ some n → n < 2 ^ 32
  pub uint64_fits : (t : Tree) (n : ℕ) → uint64_value t ≡ some n → n < 2 ^ 64
  pub good : String → Bool
  pub read_json : String → Option Tree

-- The decimal digits from here on, behind a number.
unfoldable pub decimal : ℕ → List ℕ → ℕ
decimal n [] = n
decimal n (c ∷ cs) =
    let more = decimal (n * 10 + (c - 48)) cs in if leb b'0' c && leb c b'9' then more else n

-- A number with one digit at least.
unfoldable pub unsigned_number : List ℕ → Option ℕ
unfolding decimal
unsigned_number [] = none
unsigned_number (c ∷ cs) = if leb b'0' c && leb c b'9' then some (decimal 0 (c ∷ cs)) else none

abbrev positive : Option ℕ → Option ℤ
positive none = none
positive (some n) = some (pos n)

abbrev negated : Option ℕ → Option ℤ
negated none = none
negated (some n) = some (if n == 0 then pos 0 else negsuc (n - 1))

-- A number that a sign may precede.
unfoldable pub signed_number : List ℕ → Option ℤ
unfolding unsigned_number
signed_number [] = none
signed_number (c ∷ cs) =
    if c == b'-'
    then negated (unsigned_number cs)
    else if c == b'+'
    then positive (unsigned_number cs)
    else positive (unsigned_number (c ∷ cs))

-- The characters of a text.
abbrev pub codes : String → List ℕ
codes String.[] = []
codes (String.◌∷◌ c s) = code c ∷ codes s

-- `uint32_t k = std::stoi(text)`: the number fits an `int`, and a negative one wraps.
unfoldable pub stoi : String → Result ℕ
unfolding signed_number skip_spaces
stoi text = elim (signed_number (skip_spaces (codes text))) [
  | none ↦ fault invalid_argument
  | some (pos n) ↦ if ltb n (2 ^ 31) then ok n else fault out_of_range
  | some (negsuc n) ↦ if ltb n (2 ^ 31) then ok (2 ^ 32 - suc n) else fault out_of_range
]

module _ (p : PropertyTree) where
  open p use {Tree, children, child_at, uint32_value, uint64_value, bool_value, string_value}

  abbrev pub get_child : String → Tree → Result Tree
  get_child path t = or_fault bad_path (child_at path t)

  abbrev pub get_uint32 : String → Tree → Result ℕ
  get_uint32 path t = get_child path t >>= λ c. or_fault bad_data (uint32_value c)

  -- The values of a list, from the first child on.
  unfoldable pub values_of {ℓ} :
      {A : Type ℓ} → (Tree → Option A) → List (String × Tree) → Result (List A)
  values_of value [] = ok []
  values_of value ((_, t) ∷ l) =
      or_fault bad_data (value t) >>= λ v. values_of value l >>= λ vs. ok (v ∷ vs)

  abbrev pub get_list {ℓ} : {A : Type ℓ} → (Tree → Option A) → String → Tree → Result (List A)
  get_list value path t = get_child path t >>= λ c. values_of value (children c)

  -- The loops over a `std::map<uint32_t, uint32_t>` of the file: a key that is there twice has its last
  -- value.
  unfoldable pub read_inner_map : List (String × Tree) → Map ℕ → Result (Map ℕ)
  unfolding stoi assign
  read_inner_map [] inner_map = ok inner_map
  read_inner_map ((first, second) ∷ l) inner_map = stoi first >>= λ inner_key.
      or_fault bad_data (uint32_value second) >>= λ value.
      read_inner_map l (assign inner_key value inner_map)

  unfoldable pub read_outer_map : List (String × Tree) → Map (Map ℕ) → Result (Map (Map ℕ))
  unfolding stoi assign read_inner_map
  read_outer_map [] m = ok m
  read_outer_map ((first, second) ∷ l) m = stoi first >>= λ outer_key.
      read_inner_map (children second) [] >>= λ inner_map.
      read_outer_map l (assign outer_key inner_map m)

  uint32-Ensures : (c : Tree) → Ensures (λ n. n < 2 ^ 32) (or_fault bad_data (uint32_value c))
  uint32-Ensures c = or_fault-Ensures bad_data (uint32_value c) (p.uint32_fits c)

  pub get_uint32-Ensures :
      (path : String) (t : Tree) → Ensures (λ n. n < 2 ^ 32) (get_uint32 path t)
  get_uint32-Ensures path t =
      bind-Ensures (get_child path t) (λ c. or_fault bad_data (uint32_value c))
        (λ c. uint32-Ensures c)

  pub get_uint64-Ensures :
      (path : String) (t : Tree)
      → Ensures (λ n. n < 2 ^ 64) (get_child path t >>= λ c. or_fault bad_data (p.uint64_value c))
  get_uint64-Ensures path t =
      bind-Ensures (get_child path t) (λ c. or_fault bad_data (p.uint64_value c))
        (λ c. or_fault-Ensures bad_data (p.uint64_value c) (p.uint64_fits c))
