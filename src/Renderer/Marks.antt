-- ===== src/Renderer/Marks.antt =====
-- The classes of the circles: what keeps them in order.
use mathlib.Core.Option
use hax_war.Base.{
  nat_eq, pair_eq, ℕ, ◌≡◌, refl, Bool, true, false, ◌&&◌, Option, none, some, List, [], ◌∷◌, ◌==◌,
  adjust, map_values, insert, lookup, lookup-adjust, lookup-insert, lookup-map_values,
  if◌then◌else◌, arith,
}
use hax_war.Protocol.{NodeView}
use hax_war.Renderer.{NodeEl}
use hax_war.Renderer.Update.{paint_node, paint_nodes}

abbrev pub selected_of : Option NodeEl → Bool
selected_of none = false
selected_of (some el) = el.circle.selected

abbrev pub clash_of : Option NodeEl → Bool
clash_of none = false
clash_of (some el) = el.circle.mine && el.circle.opponent

-- A change of an element that keeps the two facts.
abbrev pub Keeps : (NodeEl → NodeEl) → Type 0
Keeps f =
    (el : NodeEl)
    → ((f el).circle.selected ≡ true → el.circle.selected ≡ true)
      × (((f el).circle.mine && (f el).circle.opponent) ≡ true
          → (el.circle.mine && el.circle.opponent) ≡ true)

keep_selected :
    (f : NodeEl → NodeEl) (o : Option NodeEl)
    → Keeps f
    → selected_of (Option.map f o) ≡ true
    → selected_of o ≡ true
keep_selected f none k h = h
keep_selected f (some el) k h = (k el).0 h

keep_clash :
    (f : NodeEl → NodeEl) (o : Option NodeEl)
    → Keeps f
    → clash_of (Option.map f o) ≡ true
    → clash_of o ≡ true
keep_clash f none k h = h
keep_clash f (some el) k h = (k el).1 h

pub false_of_not_true : (b c : Bool) → (b ≡ true → c ≡ true) → c ≡ false → b ≡ false
false_of_not_true true c f h = cc (f refl, h)
false_of_not_true false c f h = refl

module _ (selected : Option ℕ) where
  -- Only the selected node has the class `selected`, and no circle has both of the classes `mine`
  -- and `opponent`.
  pub record Holds (nodes : List (ℕ × NodeEl)) : Type 0 where
    pub lone : (id : ℕ) → selected_of (lookup id nodes) ≡ true → selected ≡ some id
    pub unclashed : (id : ℕ) → clash_of (lookup id nodes) ≡ false

  pub Holds-adjust :
      (k : ℕ) (f : NodeEl → NodeEl) (m : List (ℕ × NodeEl))
      → Keeps f
      → Holds m
      → Holds (adjust k f m)
  Holds-adjust k f m keep v = record {
    lone = λ id. rw (lookup-adjust k id f m) (of_test id (k == id));
    unclashed = λ id. rw (lookup-adjust k id f m) (of_clash id (k == id));
  }
    where
      of_test :
          (id : ℕ) (b : Bool)
          → selected_of (if b then Option.map f (lookup id m) else lookup id m) ≡ true
          → selected ≡ some id
      of_test id true h = v.lone id (keep_selected f (lookup id m) keep h)
      of_test id false h = v.lone id h

      of_clash :
          (id : ℕ) (b : Bool)
          → clash_of (if b then Option.map f (lookup id m) else lookup id m) ≡ false
      of_clash id true = false_of_not_true _ _ (keep_clash f (lookup id m) keep) (v.unclashed id)
      of_clash id false = v.unclashed id

  pub Holds-map_values :
      (f : NodeEl → NodeEl) (m : List (ℕ × NodeEl)) → Keeps f → Holds m → Holds (map_values f m)
  Holds-map_values f m keep v = record {
    lone =
        λ id. rw (lookup-map_values f id m) (λ h. v.lone id (keep_selected f (lookup id m) keep h));
    unclashed = λ id.
        rw (lookup-map_values f id m)
          (false_of_not_true _ _ (keep_clash f (lookup id m) keep) (v.unclashed id));
  }

  pub Holds-insert :
      (k : ℕ) (el : NodeEl) (m : List (ℕ × NodeEl))
      → el.circle.selected ≡ false
      → el.circle.mine ≡ false
      → Holds m
      → Holds (insert k el m)
  Holds-insert k el m s n v = record {
    lone = λ id. rw (lookup-insert k id el m) (of_test id (k == id));
    unclashed = λ id. rw (lookup-insert k id el m) (of_clash id (k == id));
  }
    where
      of_test :
          (id : ℕ) (b : Bool)
          → selected_of (if b then some el else lookup id m) ≡ true
          → selected ≡ some id
      of_test id true h = cc
      of_test id false h = v.lone id h

      of_clash : (id : ℕ) (b : Bool) → clash_of (if b then some el else lookup id m) ≡ false
      of_clash id true = rw n
      of_clash id false = v.unclashed id

  paint_node-Keeps : (v : NodeView) → Keeps (paint_node v)
  unfolding paint_node
  paint_node-Keeps v el = (λ h. cc, λ h. ground arith)

  pub Holds-paint_nodes :
      (vs : List NodeView) (m : List (ℕ × NodeEl)) → Holds m → Holds (paint_nodes vs m)
  unfolding paint_nodes
  Holds-paint_nodes [] m h = h
  Holds-paint_nodes (v ∷ vs) m h =
      Holds-paint_nodes vs (adjust v.id (paint_node v) m)
        (Holds-adjust v.id (paint_node v) m (paint_node-Keeps v) h)
