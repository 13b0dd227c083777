-- ===== src/Execution/KillSwitch/Flatten.antt =====
-- What the kill switch asks of the venue.
use ztrade.Prelude.{
  String, ◌≡◌, refl, sym, ◌∙◌, inl, inr, Bool, true, false, not, ◌&&◌, ◌||◌, none, some, List, [],
  ◌∷◌, ◌++◌, arith, if◌then◌else◌, Bool-cases, Option-cases, length, take, codes,
}
use mathlib.Core.List.{append-nil, append_assoc}
use mathlib.Core.Path.{subst}
use ztrade.Prelude.Int.{ℤ}
use ztrade.Prelude.Text.{Text}
use ztrade.Prelude.Table.{string_eq}
use ztrade.Prelude.Double.{Double}
use ztrade.Execution.KillSwitch.{
  OpenPosition, KillRequest, cancel_everything, list_positions, close_position, KillAnswer,
  CloseResult, listed_in, close_each, panic, KillSwitch, HttpRequest, HttpAnswer, health,
  unauthorised, not_found, rearmed, triggered, authorised, handle_request, same_text, or_text,
  after_prefix,
}

-- The venue with a list of the requests that have reached it.
abbrev pub recorded :
    {V : Type 0}
    → (KillRequest → V → V × KillAnswer)
    → KillRequest
    → List KillRequest × V
    → (List KillRequest × V) × KillAnswer
recorded venue request (log, v) =
    let (v', answer) = venue request v in ((log ++ (request ∷ []), v'), answer)

-- Five answers of which one alone is told apart: the guards come down to one.
one_apart :
    {A B : Type 0} (look : A → B) (x0 x1 xk xr xn : A) (w v : B) (h a p k r : Bool)
    → (h ≡ true → k ≡ false)
    → (look x0 ≡ v) × (look x1 ≡ v) × (look xk ≡ w) × (look xr ≡ v) × (look xn ≡ v)
    → look
        (if h then x0 else if not a then x1 else if p && k then xk else if p && r then xr else xn)
      ≡ (if a && p && k then w else v)
one_apart look x0 x1 xk xr xn w v true a p k r other (e0, e1, ek, er, en) =
    let miss : (a && p && k) ≡ false = ground (arith, other refl) in rw miss e0
one_apart look x0 x1 xk xr xn w v false false p k r other (e0, e1, ek, er, en) = e1
one_apart look x0 x1 xk xr xn w v false true false k r other (e0, e1, ek, er, en) = en
one_apart look x0 x1 xk xr xn w v false true true true r other (e0, e1, ek, er, en) = ek
one_apart look x0 x1 xk xr xn w v false true true false true other (e0, e1, ek, er, en) = er
one_apart look x0 x1 xk xr xn w v false true true false false other (e0, e1, ek, er, en) = en

held_open : (finite small : Bool) → not (not finite || small) ≡ (finite && not small)
held_open finite small = ground arith

-- The header of a request gives the token, behind "Bearer " or on its own.
abbrev bears : Text → HttpRequest → Bool
bears token request =
    let given = request.authorization in
    let start = codes "Bearer " in
    same_text given (start ++ token)
    || (same_text given token && not (same_text (take 7 given) start))

behind_prefix :
    (start x rest token : Text)
    → after_prefix start x ≡ some rest
    → (same_text x (start ++ token) ≡ same_text rest token)
      × (same_text (take (length start) x) start ≡ true)
behind_prefix [] x rest token h = let e : x ≡ rest = cc in rw e (refl, refl)
behind_prefix (c ∷ start) [] rest token h = cc
behind_prefix (c ∷ start) (e ∷ x) rest token h = ground (arith, behind_prefix start x rest token)

no_prefix :
    (start x token : Text)
    → after_prefix start x ≡ none
    → (same_text x (start ++ token) ≡ false) × (same_text (take (length start) x) start ≡ false)
no_prefix [] x token h = cc
no_prefix (c ∷ start) [] token h = (refl, refl)
no_prefix (c ∷ start) (e ∷ x) token h = ground (arith, no_prefix start x token)

-- What is left behind a prefix is the token exactly if the text is the prefix and the token.
presented-bears :
    (start given token : Text)
    → same_text (or_text given (after_prefix start given)) token ≡ (
        same_text given (start ++ token)
        || (same_text given token && not (same_text (take (length start) given) start)))
presented-bears start given token = elim (Option-cases (after_prefix start given)) [
  | inl missing ↦
      let (a, b) = no_prefix start given token missing in simp (missing, a, b) (ground arith)
  | inr (rest, found) ↦
      let (a, b) = behind_prefix start given rest token found in simp (found, a, b) (ground arith)
]

module _ {F : Type 0} ⦃d : Double F⦄ (number_of : String → F) (print : F → String) where
  -- Its size is a positive finite number.
  abbrev is_open : OpenPosition → Bool
  is_open p =
      let size = number_of p.size_text in d.is_finite size && not (d.le size (d.literal 0 0))

  -- The order that takes a position back.
  abbrev taken_back : OpenPosition → KillRequest
  taken_back p = close_position (record {
    category = "linear";
    closed_symbol = p.symbol;
    closing_side = if string_eq.beq p.side "Buy" then "Sell" else "Buy";
    order_type = "Market";
    qty_text = print (number_of p.size_text);
    reduce_only = true;
  })

  abbrev pub closings : List OpenPosition → List KillRequest
  closings [] = []
  closings (p ∷ positions) =
      let rest = closings positions in if is_open p then taken_back p ∷ rest else rest

  module _ {V : Type 0} (venue : KillRequest → V → V × KillAnswer) where
    close_each-log :
        (positions : List OpenPosition) (closes : List CloseResult) (log : List KillRequest) (v : V)
        → (close_each number_of print false (recorded venue) positions closes (log, v)).0.0
          ≡ log ++ closings positions
    unfolding close_each
    close_each-log [] closes log v = sym (append-nil log)
    close_each-log (p ∷ positions) closes log v =
        let size = number_of p.size_text in
        let same = held_open (d.is_finite size) (d.le size (d.literal 0 0)) in
        elim (Bool-cases (is_open p)) [
          | inl held ↦
              let asked = taken_back p in
              let (v', answer) = venue asked v in
              simp (same, held)
                (close_each-log positions _ (log ++ (asked ∷ [])) v'
                  ∙ append_assoc log (asked ∷ []) (closings positions))
          | inr flat ↦ simp (same, flat) (close_each-log positions closes log v)
        ]

    -- A panic asks the venue to cancel everything, then for its positions, then to close each position
    -- that it listed with a positive finite size, in that order, by a reduce-only market order on the
    -- other side; and it asks nothing else and leaves none out, whatever answers throw. A dry run asks
    -- nothing.
    pub panic_flattens :
        (settle_coin : String) (v : V)
        → let listed =
            (venue (list_positions settle_coin) (venue (cancel_everything settle_coin) v).0).1 in
          ((panic number_of print false (recorded venue) settle_coin ([], v)).0.0
            ≡ cancel_everything settle_coin
              ∷ list_positions settle_coin
              ∷ closings (listed_in listed))
          × ((panic number_of print true venue settle_coin v).0 ≡ v)
    unfolding panic
    panic_flattens settle_coin v =
        let (v1, cancelled) = venue (cancel_everything settle_coin) v in
        let (v2, listed) = venue (list_positions settle_coin) v1 in
        (
          close_each-log (listed_in listed) []
              (cancel_everything settle_coin ∷ list_positions settle_coin ∷ []) v2,
          refl,
        )

    -- What a request does, by the verdict on its token and whether it posts to /kill.
    abbrev Answered : Bool → Text → HttpRequest → Bool → String → ℤ → KillSwitch → V → Type 0
    Answered ok token request dry_run settle_coin now s v =
        let after =
          (handle_request number_of print dry_run venue settle_coin token now request (s, v)).0 in
        let kills =
          ok && string_eq.beq request.method "POST" && string_eq.beq request.url "/kill" in
        (after.1 ≡ (if kills then (panic number_of print dry_run venue settle_coin v).0 else v))
        × (after.0.last_trigger ≡ (if kills then some now else s.last_trigger))

    handle_request-Answered :
        (dry_run : Bool) (settle_coin : String) (token : Text) (now : ℤ) (request : HttpRequest)
        (s : KillSwitch) (v : V)
        → Answered (authorised token request) token request dry_run settle_coin now s v
    unfolding handle_request
    handle_request-Answered dry_run settle_coin token now request s v =
        let (after, steps) = panic number_of print dry_run venue settle_coin v in
        let other : string_eq.beq request.url "/health" ≡ true
            → string_eq.beq request.url "/kill" ≡ false =
          λ h. rw ((string_eq.beq_iff request.url "/health").0 h) refl in
        (
          one_apart (λ (x : (KillSwitch × V) × HttpAnswer). x.0.1)
              ((s, v), health s.armed s.last_trigger) ((s, v), unauthorised)
              ((record { armed = false; last_trigger = some now }, after), triggered now steps)
              ((record s { armed = true }, v), rearmed) ((s, v), not_found) after v
              (string_eq.beq request.url "/health") (authorised token request)
              (string_eq.beq request.method "POST") (string_eq.beq request.url "/kill")
              (string_eq.beq request.url "/rearm") other (refl, refl, refl, refl, refl),
          one_apart (λ (x : (KillSwitch × V) × HttpAnswer). x.0.0.last_trigger)
              ((s, v), health s.armed s.last_trigger) ((s, v), unauthorised)
              ((record { armed = false; last_trigger = some now }, after), triggered now steps)
              ((record s { armed = true }, v), rearmed) ((s, v), not_found) (some now)
              s.last_trigger (string_eq.beq request.url "/health") (authorised token request)
              (string_eq.beq request.method "POST") (string_eq.beq request.url "/kill")
              (string_eq.beq request.url "/rearm") other (refl, refl, refl, refl, refl),
        )

    abbrev pub is_kill : Text → HttpRequest → Bool
    is_kill token request =
        bears token request
        && string_eq.beq request.method "POST"
        && string_eq.beq request.url "/kill"

    -- The venue is touched by a request to the worker exactly if it is a POST to /kill whose header
    -- gives the worker's token, behind "Bearer " or on its own, and then it is the panic that touches
    -- it, armed or not; any other request leaves the venue alone, and no other request sets the trigger.
    pub kill_needs_token :
        (dry_run : Bool) (settle_coin : String) (token : Text) (now : ℤ) (request : HttpRequest)
        (s : KillSwitch) (v : V)
        → let after =
            (handle_request number_of print dry_run venue settle_coin token now request (s, v)).0 in
          (after.1 ≡ (
            if is_kill token request
            then (panic number_of print dry_run venue settle_coin v).0
            else v))
          × (after.0.last_trigger ≡ (if is_kill token request then some now else s.last_trigger))
    kill_needs_token dry_run settle_coin token now request s v =
        subst (λ ok. Answered ok token request dry_run settle_coin now s v)
          (presented-bears (codes "Bearer ") request.authorization token)
          (handle_request-Answered dry_run settle_coin token now request s v)
