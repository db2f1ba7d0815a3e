-- ===== src/Layout/Extent.antt =====
-- The extent of a set of points, and of an accepted layout in the scene.
use ev_factory_twin.Prelude.{
  ◌≡◌, refl, subst, arith, Bool, true, false, none, some, if◌then◌else◌, List, [], ◌∷◌, map, filter,
  All, All-map_of, Bool-cases, inl, inr,
}
use ev_factory_twin.Prelude.Int.{ℤ, pos, min_ℤ, max_ℤ, ◌-ℤ◌, ◌≤ℤ◌, int_laws}
use ev_factory_twin.Schema.Layout.{WorldPoint, FactoryLayout, LayoutVersion}
use ev_factory_twin.Layout.{
  WorldRect, bounds_for_points, rect_contains, least, greatest, layout_points, layout_issues,
  is_outside, accept, parse_layout, project_layout_version, to_scene,
}

min_le_left : (a b : ℤ) → min_ℤ a b ≤ℤ a
min_le_left a b = ground arith

min_le_right : (a b : ℤ) → min_ℤ a b ≤ℤ b
min_le_right a b = ground arith

le_max_left : (a b : ℤ) → a ≤ℤ max_ℤ a b
le_max_left a b = ground arith

le_max_right : (a b : ℤ) → b ≤ℤ max_ℤ a b
le_max_right a b = ground arith

le_trans : (a b c : ℤ) → a ≤ℤ b → b ≤ℤ c → a ≤ℤ c
le_trans a b c h k = omega arith

least_le : (n : ℤ) (ms : List ℤ) → (least n ms ≤ℤ n) × All (λ m. least n ms ≤ℤ m) ms
least_le n [] = (omega arith, tt)
least_le n (m ∷ ms) =
    let (first, rest) = least_le m ms in
    let low = least m ms in
    let le = min_le_right n low in
    (
      min_le_left n low,
      (
        le_trans (min_ℤ n low) low m le first,
        All-map_of ms (λ k h. le_trans (min_ℤ n low) low k le h) rest,
      ),
    )

le_greatest : (n : ℤ) (ms : List ℤ) → (n ≤ℤ greatest n ms) × All (λ m. m ≤ℤ greatest n ms) ms
le_greatest n [] = (omega arith, tt)
le_greatest n (m ∷ ms) =
    let (first, rest) = le_greatest m ms in
    let high = greatest m ms in
    let le = le_max_right n high in
    (
      le_max_left n high,
      (
        le_trans m high (max_ℤ n high) first le,
        All-map_of ms (λ k h. le_trans k high (max_ℤ n high) h le) rest,
      ),
    )

-- What lies above the members lies above the least.
le_least : (k n : ℤ) (ms : List ℤ) → k ≤ℤ n → All (λ m. k ≤ℤ m) ms → k ≤ℤ least n ms
le_least k n [] h hs = h
le_least k n (m ∷ ms) h hs = ground (arith, le_least k m ms hs.0 hs.1)

greatest_le : (k n : ℤ) (ms : List ℤ) → n ≤ℤ k → All (λ m. m ≤ℤ k) ms → greatest n ms ≤ℤ k
greatest_le k n [] h hs = h
greatest_le k n (m ∷ ms) h hs = ground (arith, greatest_le k m ms hs.0 hs.1)

All-map :
    {A B : Type 0} (P : B → Type 0) (g : A → B) (xs : List A)
    → All (λ x. P (g x)) xs
    → All P (map g xs)
All-map P g [] h = tt
All-map P g (x ∷ xs) h = (h.0, All-map P g xs h.1)

All-of-map :
    {A B : Type 0} (P : B → Type 0) (g : A → B) (xs : List A)
    → All P (map g xs)
    → All (λ x. P (g x)) xs
All-of-map P g [] h = tt
All-of-map P g (x ∷ xs) h = (h.0, All-of-map P g xs h.1)

-- The point lies in the rectangle.
abbrev pub IsWithin : WorldRect → WorldPoint → Type 0
IsWithin r p = (r.x0 ≤ℤ p.x) × (p.x ≤ℤ r.x1) × (r.y0 ≤ℤ p.y) × (p.y ≤ℤ r.y1)

All-both :
    {A : Type 0} (P Q : A → Type 0) (xs : List A) → All P xs → All Q xs → All (λ x. P x × Q x) xs
All-both P Q [] h k = tt
All-both P Q (x ∷ xs) h k = ((h.0, k.0), All-both P Q xs h.1 k.1)

contains-IsWithin : (r : WorldRect) (p : WorldPoint) → IsWithin r p → rect_contains r p ≡ true
unfolding rect_contains
contains-IsWithin r p h = ground arith

IsWithin-of_contains : (r : WorldRect) (p : WorldPoint) → rect_contains r p ≡ true → IsWithin r p
unfolding rect_contains
IsWithin-of_contains r p h = ground arith

-- `inner` lies in `outer`.
abbrev pub IsInside : WorldRect → WorldRect → Type 0
IsInside outer inner =
    (outer.x0 ≤ℤ inner.x0)
    × (inner.x1 ≤ℤ outer.x1)
    × (outer.y0 ≤ℤ inner.y0)
    × (inner.y1 ≤ℤ outer.y1)

-- The bounds of a list of points contain all of them, and lie in every rectangle that does.
pub bounds_are_least :
    (p : WorldPoint) (ps : List WorldPoint)
    → All (λ q. rect_contains (bounds_for_points p ps) q ≡ true) (p ∷ ps)
      × ((r : WorldRect)
          → All (λ q. rect_contains r q ≡ true) (p ∷ ps)
          → IsInside r (bounds_for_points p ps))
unfolding bounds_for_points
bounds_are_least p ps =
    let xs = map (λ (q : WorldPoint). q.x) ps in
    let ys = map (λ (q : WorldPoint). q.y) ps in
    let (x0, x0s) = least_le p.x xs in
    let (y0, y0s) = least_le p.y ys in
    let (x1, x1s) = le_greatest p.x xs in
    let (y1, y1s) = le_greatest p.y ys in
    let rest =
      All-both _ _ ps
        (All-both _ _ ps (All-of-map _ (λ (q : WorldPoint). q.x) ps x0s)
          (All-of-map _ (λ (q : WorldPoint). q.x) ps x1s))
        (All-both _ _ ps (All-of-map _ (λ (q : WorldPoint). q.y) ps y0s)
          (All-of-map _ (λ (q : WorldPoint). q.y) ps y1s)) in
    (
      (
        contains-IsWithin (bounds_for_points p ps) p (x0, x1, y0, y1),
        All-map_of ps
            (λ q h. contains-IsWithin (bounds_for_points p ps) q (h.0.0, h.0.1, h.1.0, h.1.1)) rest,
      ),
      λ r h.
          let first = IsWithin-of_contains r p h.0 in
          let each = All-map_of ps (λ q. IsWithin-of_contains r q) h.1 in
          (
            le_least r.x0 p.x xs first.0
                (All-map _ (λ (q : WorldPoint). q.x) ps (All-map_of ps (λ q k. k.0) each)),
            greatest_le r.x1 p.x xs first.1
                (All-map _ (λ (q : WorldPoint). q.x) ps (All-map_of ps (λ q k. k.1) each)),
            le_least r.y0 p.y ys first.2
                (All-map _ (λ (q : WorldPoint). q.y) ps (All-map_of ps (λ q k. k.2) each)),
            greatest_le r.y1 p.y ys first.3
                (All-map _ (λ (q : WorldPoint). q.y) ps (All-map_of ps (λ q k. k.3) each)),
          ),
    )

-- The point lies on the floor of the scene, which is centred on the origin.
abbrev pub IsOnFloor : FactoryLayout → WorldPoint → Type 0
IsOnFloor layout p =
    let t = to_scene p layout (pos 0) in
    (t.x ≤ℤ layout.width)
    × (pos 0 -ℤ layout.width ≤ℤ t.x)
    × (t.z ≤ℤ layout.height)
    × (pos 0 -ℤ layout.height ≤ℤ t.z)

is_inside-IsOnFloor :
    (layout : FactoryLayout) (p : WorldPoint) → is_outside layout p ≡ false → IsOnFloor layout p
unfolding to_scene
is_inside-IsOnFloor layout p h =
    let x_low : pos 0 ≤ℤ p.x = ground arith in
    let x_high : p.x ≤ℤ layout.width = ground arith in
    let y_low : pos 0 ≤ℤ p.y = ground arith in
    let y_high : p.y ≤ℤ layout.height = ground arith in
    (omega int_laws, omega int_laws, omega int_laws, omega int_laws)

none_kept : {A : Type 0} (t : A → Bool) (xs : List A) → filter t xs ≡ [] → All (λ x. t x ≡ false) xs
none_kept t [] h = tt
none_kept t (x ∷ xs) h = elim (Bool-cases (t x)) [
  | inl e ↦ let k = rw e at h in cc
  | inr e ↦ let k = rw e at h in (e, none_kept t xs k)
]

accepted :
    (fields : Bool) (issues : List WorldPoint) (l layout : FactoryLayout)
    → (if fields then accept issues l else none) ≡ some layout
    → (issues ≡ []) × (l ≡ layout)
accepted true [] l layout h = (refl, ground arith)
accepted true (p ∷ ps) l layout h = cc
accepted false issues l layout h = cc

-- Every station, waypoint and corner of the layout that a layout version is projected to lies on the
-- floor of the scene.
pub projected-IsOnFloor :
    (v : LayoutVersion) (layout : FactoryLayout)
    → project_layout_version v ≡ some layout
    → All (IsOnFloor layout) (layout_points layout)
unfolding project_layout_version parse_layout layout_issues
projected-IsOnFloor v layout h =
    let (none_outside, same) = accepted _ _ _ layout h in
    subst (λ (l : FactoryLayout). All (IsOnFloor l) (layout_points l)) same
      (All-map_of _ (is_inside-IsOnFloor _) (none_kept _ _ none_outside))
