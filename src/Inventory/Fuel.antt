-- ===== src/Inventory/Fuel.antt =====
-- The loop over `pending` of run_inventory.py ends: the fuel of its model is never spent.
use capybaragram_build.Prelude.{
  ℕ, zero, suc, ◌+◌, ◌≤◌, true, false, List, [], ◌∷◌, length, none, some, ◌≡◌, ◌⊎◌, inl, inr, refl,
  sym, ap, subst, arith, Bool-cases, Option-cases, Result, ok, err,
}
use capybaragram_build.Text.{Text, text_eq, listed}
use capybaragram_build.Text.Equal.{text_eq_sound}
use capybaragram_build.Text.Listed.{listed-there, listed-here}
use capybaragram_build.Inventory.{
  Node, Dep, selected_deps, deps_of, push_all, edges, reach, reached_from, missing,
}

-- The selected dependencies of the nodes that are not reached yet.
unfoldable waiting : List Text → List Node → ℕ
waiting reached [] = 0
waiting reached (n ∷ nodes) = elim (listed n.id reached) [
  | true ↦ waiting reached nodes
  | false ↦ length (selected_deps n.deps) + waiting reached nodes
]

waiting-edges : (nodes : List Node) → waiting [] nodes ≡ edges nodes
unfolding waiting edges listed
waiting-edges [] = refl
waiting-edges (n ∷ nodes) = ap (λ k. length (selected_deps n.deps) + k) (waiting-edges nodes)

waiting-grows :
    (i : Text) (reached : List Text) (nodes : List Node)
    → waiting (i ∷ reached) nodes ≤ waiting reached nodes
unfolding waiting
waiting-grows i reached [] = omega arith
waiting-grows i reached (n ∷ nodes) =
    let h = waiting-grows i reached nodes in
    elim (Bool-cases (listed n.id reached)) [
      | inl e ↦ ground (arith, e, h, listed-there n.id i reached e)
      | inr e ↦ elim (Bool-cases (listed n.id (i ∷ reached))) [
        | inl f ↦ ground (arith, e, f, h)
        | inr f ↦ ground (arith, e, f, h)
      ]
    ]

waiting-drops :
    (i : Text) (reached : List Text) (nodes : List Node) (deps : List Dep)
    → listed i reached ≡ false
    → deps_of i nodes ≡ some deps
    → length (selected_deps deps) + waiting (i ∷ reached) nodes ≤ waiting reached nodes
unfolding waiting deps_of
waiting-drops i reached [] deps l d = cc d
waiting-drops i reached (n ∷ nodes) deps l d = elim (Bool-cases (text_eq i n.id)) [
  | inl e ↦
      (let same : i ≡ n.id = text_eq_sound i n.id e in
        let here : listed n.id (i ∷ reached) ≡ true =
          subst (λ t. listed t (i ∷ reached) ≡ true) same (listed-here i reached) in
        let new : listed n.id reached ≡ false = subst (λ t. listed t reached ≡ false) same l in
        let its : n.deps ≡ deps = ground (arith, d, e) in
        let h = waiting-grows i reached nodes in
        let size = ap (λ t. length (selected_deps t)) its in ground (arith, here, new, size, h))
  | inr e ↦
      (let h = waiting-drops i reached nodes deps l (ground (arith, d, e)) in
        elim (Bool-cases (listed n.id reached)) [
          | inl f ↦ ground (arith, f, h, listed-there n.id i reached f)
          | inr f ↦ elim (Bool-cases (listed n.id (i ∷ reached))) [
            | inl g ↦ ground (arith, f, g, h)
            | inr g ↦ ground (arith, f, g, h)
          ]
        ])
]

length-push_all : (ns p : List Text) → length (push_all ns p) ≡ length ns + length p
unfolding push_all length
length-push_all [] p = omega arith
length-push_all (n ∷ ns) p = let h = length-push_all ns (n ∷ p) in omega (arith, h)

Ends : Result (List Text) → Type 0
Ends r = ((out : List Text) × (r ≡ ok out)) ⊎ (r ≡ err missing)

reach-seen :
    (nodes : List Node) (fuel : ℕ) (reached : List Text) (i : Text) (pending : List Text)
    → listed i reached ≡ true
    → reach nodes (suc fuel) reached (i ∷ pending) ≡ reach nodes fuel reached pending
unfolding reach
reach-seen nodes fuel reached i pending e = ground (arith, e)

reach-missing :
    (nodes : List Node) (fuel : ℕ) (reached : List Text) (i : Text) (pending : List Text)
    → listed i reached ≡ false
    → deps_of i nodes ≡ none
    → reach nodes (suc fuel) reached (i ∷ pending) ≡ err missing
unfolding reach
reach-missing nodes fuel reached i pending e n = ground (arith, e, n)

reach-found :
    (nodes : List Node) (fuel : ℕ) (reached : List Text) (i : Text) (pending : List Text)
    (deps : List Dep)
    → listed i reached ≡ false
    → deps_of i nodes ≡ some deps
    → reach nodes (suc fuel) reached (i ∷ pending)
      ≡ reach nodes fuel (i ∷ reached) (push_all (selected_deps deps) pending)
unfolding reach
reach-found nodes fuel reached i pending deps e n = ground (arith, e, n)

reach-Ends :
    (nodes : List Node) (fuel : ℕ) (reached pending : List Text)
    → length pending + waiting reached nodes ≤ fuel
    → Ends (reach nodes fuel reached pending)
unfolding reach length Ends
reach-Ends nodes fuel reached [] h = inl (reached, refl)
reach-Ends nodes zero reached (i ∷ pending) h = absurd (omega (arith, h))
reach-Ends nodes (suc fuel) reached (i ∷ pending) h = elim (Bool-cases (listed i reached)) [
  | inl e ↦
      subst Ends (sym (reach-seen nodes fuel reached i pending e))
        (reach-Ends nodes fuel reached pending (omega (arith, h)))
  | inr e ↦ elim (Option-cases (deps_of i nodes)) [
    | inl n ↦ subst Ends (sym (reach-missing nodes fuel reached i pending e n)) (inr refl)
    | inr (deps, d) ↦
        (let drop = waiting-drops i reached nodes deps e d in
          let pushed = length-push_all (selected_deps deps) pending in
          let more = push_all (selected_deps deps) pending in
          subst Ends (sym (reach-found nodes fuel reached i pending deps e d))
            (reach-Ends nodes fuel (i ∷ reached) more (omega (arith, h, drop, pushed))))
  ]
]

-- On every graph and from every root the loop ends within the fuel: it returns a list of packages, or it
-- refuses the graph for a node that is missing.
pub reached_from-Ends :
    (nodes : List Node) (root : Text)
    → ((out : List Text) × (reached_from nodes root ≡ ok out))
      ⊎ (reached_from nodes root ≡ err missing)
unfolding reached_from Ends length
reached_from-Ends nodes root =
    let h = waiting-edges nodes in
    reach-Ends nodes (1 + edges nodes) [] (root ∷ []) (omega (arith, h))
