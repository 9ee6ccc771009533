-- ===== src/Base/Maps.antt =====
-- Maps with one entry for each key. A BTreeMap is in the order of its keys, which scans observe; a HashMap,
-- whose order the code never observes, is in the order of insertion: its keys have no order here.
use quantalithos_bus.Base.{
  ℕ, ◌≡◌, ap, refl, ◌↔◌, inl, inr, Bool, true, false, ◌&&◌, Option, none, some, List, [], ◌∷◌,
  arith, ◌==◌, ==_iff, if◌then◌else◌, Bool-cases,
}
use mathlib.Core.Option.{map as option_map}
use quantalithos_bus.Base.Text.{Text, text_eq, text_lt}
use quantalithos_bus.Base.Text.Laws.{text_eq_iff}

pub record MapKey (K : Type 0) : Type 0 where
  pub same : K → K → Bool
  pub before : K → K → Bool
  pub same_iff : (a b : K) → (same a b ≡ true) ↔ (a ≡ b)

instance abbrev pub text_key : MapKey Text
text_key = record { same = text_eq; before = text_lt; same_iff = text_eq_iff }

instance abbrev pub id_key : MapKey ℕ
id_key = record { same = ◌==◌; before = λ a b. false; same_iff = ==_iff }

pub pair_iff :
    {K L : Type 0} (k : MapKey K) (l : MapKey L) (a b : K × L)
    → ((k.same a.0 b.0 && l.same a.1 b.1) ≡ true) ↔ (a ≡ b)
pair_iff k l (a, c) (b, d) = ground (arith, k.same_iff a b, l.same_iff c d)

instance abbrev pub pair_key : {K L : Type 0} → ⦃k : MapKey K⦄ → ⦃l : MapKey L⦄ → MapKey (K × L)
pair_key ⦃k⦄ ⦃l⦄ = record {
  same = λ a b. k.same a.0 b.0 && l.same a.1 b.1;
  before = λ a b. false;
  same_iff = pair_iff k l;
}

abbrev pub is_some : {A : Type 0} → Option A → Bool
is_some none = false
is_some (some a) = true

abbrev pub Map : Type 0 → Type 0 → Type 0
Map K V = List (K × V)

pub same_refl : {K : Type 0} ⦃key : MapKey K⦄ → (k : K) → key.same k k ≡ true
same_refl ⦃key⦄ k = (key.same_iff k k).1 refl

module _ {K V : Type 0} ⦃key : MapKey K⦄ where
  unfoldable pub get : K → Map K V → Option V
  get k [] = none
  get k ((j, v) ∷ m) = if key.same k j then some v else get k m

  unfoldable pub insert : K → V → Map K V → Map K V
  insert k v [] = (k, v) ∷ []
  insert k v ((j, w) ∷ m) =
      if key.same k j
      then (k, v) ∷ m
      else if key.before k j
      then (k, v) ∷ (j, w) ∷ m
      else (j, w) ∷ insert k v m

  unfoldable pub remove : K → Map K V → Map K V
  remove k [] = []
  remove k ((j, v) ∷ m) = if key.same k j then remove k m else (j, v) ∷ remove k m

  unfoldable pub contains_key : K → Map K V → Bool
  unfolding get
  contains_key k m = is_some (get k m)

  abbrev pub values : Map K V → List V
  values [] = []
  values ((k, v) ∷ m) = v ∷ values m

  -- `for (key, value) in entries { map.insert(key, value); }`
  unfoldable pub insert_all : Map K V → Map K V → Map K V
  unfolding insert
  insert_all [] m = m
  insert_all ((k, v) ∷ entries) m = insert_all entries (insert k v m)

  pub get-insert : (k : K) (v : V) (m : Map K V) → get k (insert k v m) ≡ some v
  unfolding get insert
  get-insert k v [] = ground (arith, same_refl k)
  get-insert k v ((j, w) ∷ m) = ground (arith, same_refl k, get-insert k v m)

  pub get-insert_other :
      (i k : K) (v : V) (m : Map K V) → key.same i k ≡ false → get i (insert k v m) ≡ get i m
  unfolding get insert
  get-insert_other i k v [] h = ground arith
  get-insert_other i k v ((j, w) ∷ m) h =
      ground (arith, key.same_iff k j, key.same_iff i k, get-insert_other i k v m h)

  pub contains_key-insert : (k : K) (v : V) (m : Map K V) → contains_key k (insert k v m) ≡ true
  unfolding contains_key
  contains_key-insert k v m = ap is_some (get-insert k v m)

  pub get-remove : (k : K) (m : Map K V) → get k (remove k m) ≡ none
  unfolding get remove
  get-remove k [] = refl
  get-remove k ((j, v) ∷ m) = ground (arith, get-remove k m)

  pub get-remove_other :
      (i k : K) (m : Map K V) → key.same i k ≡ false → get i (remove k m) ≡ get i m
  unfolding get remove
  get-remove_other i k [] h = refl
  get-remove_other i k ((j, v) ∷ m) h =
      ground (arith, key.same_iff k j, key.same_iff i k, get-remove_other i k m h)

-- A table of versions holds the version of each record of the table beside it.
abbrev pub Versioned : {K V W : Type 0} ⦃key : MapKey K⦄ → (V → W) → Map K V → Map K W → Type 0
Versioned {K} f m n = (k : K) → get k n ≡ option_map f (get k m)

abbrev pub map_values : {K V W : Type 0} → (V → W) → Map K V → Map K W
map_values f [] = []
map_values f ((k, v) ∷ m) = (k, f v) ∷ map_values f m

module _ {K V W : Type 0} ⦃key : MapKey K⦄ (f : V → W) where
  pub insert-Versioned :
      (k : K) (v : V) (m : Map K V) (n : Map K W)
      → Versioned f m n
      → Versioned f (insert k v m) (insert k (f v) n)
  insert-Versioned k v m n h j = elim (Bool-cases (key.same j k)) [
    | inl hit ↦
        let e : j ≡ k = (key.same_iff j k).0 hit in
        rw (e, get-insert k v m, get-insert k (f v) n) refl
    | inr miss ↦ rw (get-insert_other j k v m miss, get-insert_other j k (f v) n miss) (h j)
  ]

  pub insert_all-Versioned :
      (entries : Map K V) (m : Map K V) (n : Map K W)
      → Versioned f m n
      → Versioned f (insert_all entries m) (insert_all (map_values f entries) n)
  unfolding insert_all
  insert_all-Versioned [] m n h = h
  insert_all-Versioned ((k, v) ∷ entries) m n h =
      insert_all-Versioned entries (insert k v m) (insert k (f v) n) (insert-Versioned k v m n h)
