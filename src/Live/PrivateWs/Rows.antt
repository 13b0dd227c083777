-- ===== src/Live/PrivateWs/Rows.antt =====
-- The rows of a data frame move the counters and call the callbacks, and nothing else.
use ztrade.Prelude.{String, ◌≡◌, refl, ap, ◌∙◌, Option, none, some, List, [], ◌∷◌}
use ztrade.Prelude.Int.{ℤ}
use ztrade.Live.AccountEvents.{AccountEvent, RawExecution}
use ztrade.Live.PrivateWs.{
  OrderRow, PrivateWs, take_order, handle_order, handle_execution, handle_position,
}

module _ {F : Type 0} where
  abbrev pub IsRead : PrivateWs F → PrivateWs F → Type 0
  IsRead p q = q ≡ record p { stats = q.stats; emitted = q.emitted }

  trans-IsRead : (p q r : PrivateWs F) → IsRead p q → IsRead q r → IsRead p r
  trans-IsRead p q r s t =
      t ∙ ap (λ (x : PrivateWs F). record x { stats = r.stats; emitted = r.emitted }) s

  take_order-IsRead :
      (event : Option (AccountEvent F)) (p : PrivateWs F) → IsRead p (take_order event p)
  take_order-IsRead none p = refl
  take_order-IsRead (some event) p = refl

  pub handle_order-IsRead :
      (now : ℤ) (rows : List OrderRow) (p : PrivateWs F) → IsRead p (handle_order now rows p)
  unfolding handle_order
  handle_order-IsRead now [] p = refl
  handle_order-IsRead now (row ∷ rows) p =
      trans-IsRead p (take_order _ p) _ (take_order-IsRead _ p)
        (handle_order-IsRead now rows (take_order _ p))

  pub handle_execution-IsRead :
      (rows : List (RawExecution F)) (p : PrivateWs F) → IsRead p (handle_execution rows p)
  unfolding handle_execution
  handle_execution-IsRead [] p = refl
  handle_execution-IsRead (x ∷ rows) p = handle_execution-IsRead rows _

  pub handle_position-IsRead :
      (rows : List (String × F × String)) (p : PrivateWs F) → IsRead p (handle_position rows p)
  unfolding handle_position
  handle_position-IsRead [] p = refl
  handle_position-IsRead ((symbol, size, side) ∷ rows) p = handle_position-IsRead rows _
