-- ===== src/State/RoundTrip.antt =====
-- `reverse_updates` against `apply_account_updates`, on lists of updates.
use mathlib.Core.List.{reverse, reverse-cons, map-append}
use qs_react_native_zksync.Prelude.{
  ℕ, ◌≡◌, refl, sym, ◌∙◌, subst, none, some, [], ◌∷◌, ◌++◌, inl, inr, Option-cases, and_then,
  Option,
}
use qs_react_native_zksync.HashMap.Laws.{IsUnique}
use qs_react_native_zksync.Account.{AccountUpdate, AccountUpdates}
use qs_react_native_zksync.State.Defs.{ZkSyncState, Result, ok, err, panic}
use qs_react_native_zksync.State.Updates.{apply_account_updates, reverse_updates, reverse_one}
use qs_react_native_zksync.State.View.{StateView, view, update_view, outcome}
use qs_react_native_zksync.State.Refine.{
  update_views, apply_account_updates-refines, apply_account_updates-IsUnique,
}
use qs_react_native_zksync.State.Reverse.{IsConsistent, IsReversible, update_view-reversed_update}
use qs_react_native_zksync.State.Consistent.{update_view-IsConsistent}

pub update_views-append :
    (us ws : AccountUpdates) (v : StateView)
    → update_views (us ++ ws) v ≡ and_then (update_views us v) (update_views ws)
update_views-append [] ws v = refl
update_views-append ((id, u) ∷ us) ws v = elim (Option-cases (update_view id u v)) [
  | inl e ↦ rw e
  | inr (w, e) ↦ rw e (update_views-append us ws w)
]

pub reverse_updates-cons :
    (e : ℕ × AccountUpdate) (us : AccountUpdates)
    → reverse_updates (e ∷ us) ≡ reverse_updates us ++ reverse_one e ∷ []
unfolding reverse_updates
reverse_updates-cons e us = rw reverse-cons (map-append reverse_one (reverse us) (e ∷ []))

-- Each update of the list is reversible where it is applied.
abbrev pub AllReversible : AccountUpdates → StateView → Type 0
AllReversible [] v = Unit
AllReversible ((id, u) ∷ us) v =
    IsReversible id u v × ((w : StateView) → update_view id u v ≡ some w → AllReversible us w)

and_then-eq-some {ℓ κ} :
    {A : Type ℓ} {B : Type κ} (o : Option A) (f : A → Option B) {b : B}
    → and_then o f ≡ some b
    → (a : A) × (o ≡ some a) × (f a ≡ some b)
and_then-eq-some none f h = cc
and_then-eq-some (some a) f h = (a, refl, h)

pub update_views-reverse_updates :
    (us : AccountUpdates) (v : StateView) {w : StateView}
    → IsConsistent v
    → AllReversible us v
    → update_views us v ≡ some w
    → update_views (reverse_updates us) w ≡ some v
update_views-reverse_updates [] v c r h = unfold reverse_updates in sym h
update_views-reverse_updates ((id, u) ∷ us) v {w} c r h =
    let (x, first, later) = and_then-eq-some (update_view id u v) (update_views us) h in
    let back : update_views (reverse_updates us) w ≡ some x =
      update_views-reverse_updates us x (update_view-IsConsistent id u v c r.0 first) (r.1 x first)
        later in
    rw (reverse_updates-cons (id, u) us, update_views-append (reverse_updates us) _ w, back)
      (rw (update_view-reversed_update id u v c r.0 first))

-- An action that has an outcome has returned, in a state of that view.
pub outcome_inv :
    (p : Result (Unit {0}) × ZkSyncState) (v : StateView)
    → outcome p ≡ some v
    → (t : ZkSyncState) × (p ≡ (ok tt, t)) × (view t ≡ v)
outcome_inv (ok a, s) v h = (s, refl, cc)
outcome_inv (err e, s) v h = cc
outcome_inv (panic, s) v h = cc

pub update_views-IsConsistent :
    (us : AccountUpdates) (v : StateView) {w : StateView}
    → IsConsistent v
    → AllReversible us v
    → update_views us v ≡ some w
    → IsConsistent w
update_views-IsConsistent [] v {w} c r h = let e : v ≡ w = cc in subst IsConsistent e c
update_views-IsConsistent ((id, u) ∷ us) v c r h =
    let (x, first, later) = and_then-eq-some (update_view id u v) (update_views us) h in
    update_views-IsConsistent us x (update_view-IsConsistent id u v c r.0 first) (r.1 x first) later

-- If updates lead from one state to another, the reversed updates are applied without a panic to
-- every state that shows what the second shows, and lead back to what the first shows.
pub undo :
    (us : AccountUpdates) (s s' t : ZkSyncState)
    → IsConsistent (view s)
    → AllReversible us (view s)
    → update_views us (view s) ≡ some (view s')
    → view t ≡ view s'
    → IsUnique t.balance_tree.items
    → (u : ZkSyncState) × (apply_account_updates (reverse_updates us) t ≡ (ok tt, u))
      × (view u ≡ view s)
      × IsUnique u.balance_tree.items
undo us s s' t c r agrees same unique =
    let back : update_views (reverse_updates us) (view t) ≡ some (view s) =
      rw same (update_views-reverse_updates us (view s) c r agrees) in
    let (u, done, shown) =
      outcome_inv _ _ (apply_account_updates-refines (reverse_updates us) t unique ∙ back) in
    (u, done, shown, rw done at (apply_account_updates-IsUnique (reverse_updates us) t unique))
