-- ===== src/Server/Risk/Booked.antt =====
-- The symbols and the value that an entry request has booked already.
use ztrade.Prelude.{
  ℕ, ◌<◌, String, ◌≡◌, refl, ap, ◌∙◌, ◌≢◌, ◌↔◌, ◌⊎◌, inl, inr, Bool, true, false, ◌||◌, List, [],
  ◌∷◌, ◌++◌, arith, if◌then◌else◌, Bool-cases, length, All, All-imp,
}
use ztrade.Prelude.Table.{string_eq}
use ztrade.Prelude.Double.{Double}
use ztrade.Server.Risk.{
  Holding, EntryRequest, includes, has_symbol, booked, count_symbols, exposure_from, paper_only,
  current_exposure,
}

abbrev pub Member : String → List String → Type 0
Member s [] = ⊥
Member s (x ∷ xs) = (x ≡ s) ⊎ Member s xs

pub includes-Member : (s : String) (xs : List String) → (includes xs s ≡ true) ↔ Member s xs
includes-Member s [] = ground arith
includes-Member s (x ∷ xs) = ground (arith, string_eq.beq_iff x s, includes-Member s xs)

-- No holding is of the symbol.
abbrev pub IsFree : {F : Type 0} → String → List (Holding F) → Type 0
IsFree s holdings = All (λ h. h.held_symbol ≢ s) holdings

pub has_symbol-IsFree :
    {F : Type 0} (s : String) (xs ys : List (Holding F))
    → has_symbol s (xs ++ ys) ≡ false
    → IsFree s xs × IsFree s ys
has_symbol-IsFree s [] [] h = (tt, tt)
has_symbol-IsFree s [] (y ∷ ys) h =
    let apart : (y.held_symbol ≢ s) × (has_symbol s ys ≡ false) =
      ground (arith, string_eq.beq_iff y.held_symbol s, h) in
    (tt, (apart.0, (has_symbol-IsFree s [] ys apart.1).1))
has_symbol-IsFree s (x ∷ xs) ys h =
    let apart : (x.held_symbol ≢ s) × (has_symbol s (xs ++ ys) ≡ false) =
      ground (arith, string_eq.beq_iff x.held_symbol s, h) in
    let (here, there) = has_symbol-IsFree s xs ys apart.1 in ((apart.0, here), there)

-- The symbols of the list are among the names.
abbrev AreNamed : {F : Type 0} → List String → List (Holding F) → Type 0
AreNamed names holdings = All (λ h. Member h.held_symbol names) holdings

-- The symbols of the holdings, each once.
abbrev names_of : {F : Type 0} → List (Holding F) → List String
names_of [] = []
names_of (h ∷ holdings) =
    if has_symbol h.held_symbol holdings
    then names_of holdings
    else h.held_symbol ∷ names_of holdings

count-names : {F : Type 0} (xs : List (Holding F)) → count_symbols xs ≡ length (names_of xs)
count-names [] = refl
count-names (x ∷ xs) = ground (arith, count-names xs)

has-names :
    {F : Type 0} (s : String) (xs : List (Holding F))
    → has_symbol s xs ≡ true
    → Member s (names_of xs)
has-names s [] h = absurd (ground arith)
has-names s (x ∷ xs) h =
    ground (arith, string_eq.beq_iff x.held_symbol s, has-names s xs, has-names x.held_symbol xs)

AreNamed-cons :
    {F : Type 0} (n : String) (names : List String) (xs : List (Holding F))
    → AreNamed names xs
    → AreNamed (n ∷ names) xs
AreNamed-cons n names xs h = All-imp xs (λ x m. inr m) h

with_name :
    {F : Type 0} (b : Bool) (n : String) (names : List String) (xs : List (Holding F))
    → (b ≡ true → Member n names)
    → AreNamed names xs
    → Member n (if b then names else n ∷ names) × AreNamed (if b then names else n ∷ names) xs
with_name true n names xs old h = (old refl, h)
with_name false n names xs old h = (inl refl, AreNamed-cons n names xs h)

names-AreNamed : {F : Type 0} (xs : List (Holding F)) → AreNamed (names_of xs) xs
names-AreNamed [] = tt
names-AreNamed (x ∷ xs) =
    with_name (has_symbol x.held_symbol xs) x.held_symbol (names_of xs) xs
      (has-names x.held_symbol xs) (names-AreNamed xs)

AreNamed-append :
    {F : Type 0} (names : List String) (xs ys : List (Holding F))
    → AreNamed names (xs ++ ys)
    → AreNamed names xs × AreNamed names ys
AreNamed-append names [] ys h = (tt, h)
AreNamed-append names (x ∷ xs) ys h = let (a, b) = AreNamed-append names xs ys h.1 in ((h.0, a), b)

-- Fewer symbols than the limit are in use: there is such a list that names all of them.
abbrev pub HasSlot : {F : Type 0} → ℕ → List (Holding F) → List (Holding F) → Type 0
HasSlot most positions trades =
    (names : List String) × (length names < most) × AreNamed names positions × AreNamed names trades

pub booked-HasSlot :
    {F : Type 0} ⦃d : Double F⦄ (q : EntryRequest F) (most : ℕ)
    → count_symbols (booked q) < most
    → HasSlot most q.open_positions q.open_trades
booked-HasSlot q most h =
    let (positions, trades) =
      AreNamed-append (names_of (booked q)) q.open_positions q.open_trades
        (names-AreNamed (booked q)) in
    (names_of (booked q), omega (arith, count-names (booked q), h), positions, trades)

module _ {F : Type 0} ⦃d : Double F⦄ where
  -- Some holding of the list is of the symbol.
  abbrev is_among : String → List (Holding F) → Bool
  is_among s [] = false
  is_among s (h ∷ holdings) = string_eq.beq h.held_symbol s || is_among s holdings

  -- The value of the holdings whose symbol is not among the known ones, added to a total in order.
  abbrev worth : (known holdings : List (Holding F)) → F → F
  worth known [] total = total
  worth known (h ∷ holdings) total = worth known holdings (
      if is_among h.held_symbol known then total else d.add total (d.mul h.entry_price h.held_size))

  -- The value at risk: the exchange's positions, and the open trades that it does not report.
  abbrev pub exposed : EntryRequest F → F
  exposed q =
      d.add (worth [] q.open_positions (d.literal 0 0))
        (worth q.open_positions q.open_trades (d.literal 0 0))

  has_symbol-among : (s : String) (xs : List (Holding F)) → has_symbol s xs ≡ is_among s xs
  has_symbol-among s [] = refl
  has_symbol-among s (x ∷ xs) = ground (arith, has_symbol-among s xs)

  exposure-worth : (xs : List (Holding F)) (total : F) → exposure_from xs total ≡ worth [] xs total
  exposure-worth [] total = refl
  exposure-worth (x ∷ xs) total = exposure-worth xs (d.add total (d.mul x.entry_price x.held_size))

  paper-worth :
      (known xs : List (Holding F)) (total : F)
      → exposure_from (paper_only known xs) total ≡ worth known xs total
  paper-worth known [] total = refl
  paper-worth known (x ∷ xs) total =
      let same = has_symbol-among x.held_symbol known in
      elim (Bool-cases (is_among x.held_symbol known)) [
        | inl old ↦ simp (same, old) (paper-worth known xs total)
        | inr new ↦
            simp (same, new) (paper-worth known xs (d.add total (d.mul x.entry_price x.held_size)))
      ]

  pub exposure-exposed : (q : EntryRequest F) → current_exposure q ≡ exposed q
  exposure-exposed q =
      ap (λ x. d.add x (exposure_from (paper_only q.open_positions q.open_trades) (d.literal 0 0)))
        (exposure-worth q.open_positions (d.literal 0 0))
      ∙ ap (d.add (worth [] q.open_positions (d.literal 0 0)))
          (paper-worth q.open_positions q.open_trades (d.literal 0 0))
