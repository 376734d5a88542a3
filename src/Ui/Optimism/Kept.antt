-- ===== src/Ui/Optimism/Kept.antt =====
-- Which optimistic moves wait on after an update.
use hax_war.Base.{
  ℕ, ◌+◌, ◌<◌, ◌≡◌, ◌↔◌, refl, inl, inr, Bool, true, false, not, ◌&&◌, ◌||◌, List, [], ◌∷◌, any,
  ltb, All, Bool-cases, arith,
}
use hax_war.Base.Picks.{Picks, filter-Picks}
use hax_war.Protocol.{StateView, Move}
use hax_war.Ui.Optimism.{same_order, is_confirmed, is_kept, keep_moves}

-- The moves have the same ends and the same number of units.
abbrev pub IsSameOrder : Move → Move → Type 0
IsSameOrder k m =
    (k.from_node_id ≡ m.from_node_id)
    × (k.to_node_id ≡ m.to_node_id)
    × (k.unit_count ≡ m.unit_count)

-- A move that was ordered less than 3000 milliseconds ago, and that the server has not confirmed.
abbrev pub IsOnItsWay : StateView → ℕ → Move → Type 0
IsOnItsWay s now m = (now < m.timestamp + 3000) × All (λ k. ¬ IsSameOrder k m) s.my_pending_moves

same_order_iff : (k m : Move) → (same_order k m ≡ true) ↔ IsSameOrder k m
same_order_iff k m = ground arith

or_split : (a b : Bool) → a || b ≡ false → (a ≡ false) × (b ≡ false)
or_split a b h = (ground arith, ground arith)

or_join : (a b : Bool) → ¬ (a ≡ true) → b ≡ false → a || b ≡ false
or_join a b h k = elim (Bool-cases a) [ inl t ↦ absurd (h t) | inr f ↦ ground arith ]

kept_split : (c : Bool) (now end : ℕ) → not c && ltb now end ≡ true → (c ≡ false) × (now < end)
kept_split c now end h = (ground arith, ground arith)

kept_join : (c : Bool) (now end : ℕ) → c ≡ false → now < end → not c && ltb now end ≡ true
kept_join c now end h lt = ground arith

unconfirmed_iff :
    (m : Move) (ks : List Move)
    → (any (λ k. same_order k m) ks ≡ false) ↔ All (λ k. ¬ IsSameOrder k m) ks
unconfirmed_iff m [] = (λ h. tt, λ h. refl)
unconfirmed_iff m (k ∷ ks) =
    let (to, of) = unconfirmed_iff m ks in
    let same = same_order_iff k m in
    (
      λ h.
          let (here, later) = or_split (same_order k m) (any (λ x. same_order x m) ks) h in
          (λ e. cc (here, same.1 e), to later),
      λ h. or_join (same_order k m) (any (λ x. same_order x m) ks) (λ e. h.0 (same.0 e)) (of h.1),
    )

is_kept_iff : (s : StateView) (now : ℕ) (m : Move) → (is_kept s now m ≡ true) ↔ IsOnItsWay s now m
is_kept_iff s now m =
    let (to, of) = unconfirmed_iff m s.my_pending_moves in
    (
      λ h.
          let (free, young) = kept_split (is_confirmed s m) now (m.timestamp + 3000) h in
          (young, to free),
      λ h. kept_join (is_confirmed s m) now (m.timestamp + 3000) (of h.1) h.0,
    )

pub keep_moves-Picks :
    (s : StateView) (now : ℕ) (ms : List Move) → Picks (IsOnItsWay s now) ms (keep_moves s now ms)
unfolding keep_moves
keep_moves-Picks s now ms = filter-Picks (IsOnItsWay s now) (is_kept s now) (is_kept_iff s now) ms
