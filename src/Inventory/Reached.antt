-- ===== src/Inventory/Reached.antt =====
-- The loop over `pending` of run_inventory.py finds the packages that the root depends on, and no others.
use capybaragram_build.Prelude.{
  ℕ, zero, suc, true, any, List, [], ◌∷◌, some, ◌≡◌, ◌⊎◌, ◌+◌, ◌↔◌, refl, inl, inr, sym, subst,
  arith, Bool-cases, Option-cases, ok,
}
use capybaragram_build.Text.{Text, listed}
use capybaragram_build.Text.Listed.{listed-cons, listed-here, listed-there}
use capybaragram_build.Inventory.{
  Kind, normal, build, dev, selected, Node, Dep, selected_deps, deps_of, push_all, reach,
  reached_from, edges,
}

push_all-pending :
    (x : Text) (ns p : List Text) → listed x p ≡ true → listed x (push_all ns p) ≡ true
unfolding push_all
push_all-pending x [] p h = h
push_all-pending x (n ∷ ns) p h = push_all-pending x ns (n ∷ p) (listed-there x n p h)

push_all-new : (x : Text) (ns p : List Text) → listed x ns ≡ true → listed x (push_all ns p) ≡ true
unfolding push_all listed
push_all-new x [] p h = cc h
push_all-new x (n ∷ ns) p h = elim (listed-cons x n ns h) [
  | inl e ↦
      push_all-pending x ns (n ∷ p) (subst (λ t. listed t (n ∷ p) ≡ true) (sym e) (listed-here n p))
  | inr l ↦ push_all-new x ns (n ∷ p) l
]

push_all-either :
    (x : Text) (ns p : List Text)
    → listed x (push_all ns p) ≡ true
    → (listed x ns ≡ true) ⊎ (listed x p ≡ true)
unfolding push_all
push_all-either x [] p h = inr h
push_all-either x (n ∷ ns) p h = elim (push_all-either x ns (n ∷ p) h) [
  | inl l ↦ inl (listed-there x n ns l)
  | inr l ↦ elim (listed-cons x n p l) [
    | inl e ↦ inl (subst (λ t. listed t (n ∷ ns) ≡ true) (sym e) (listed-here n ns))
    | inr m ↦ inr m
  ]
]

-- Among the kinds of a dependency is one for the program itself or for its build.
pub data IsWanted : List Kind → Type 0 where
  as_normal : (ks : List Kind) → IsWanted (normal ∷ ks)
  as_build : (ks : List Kind) → IsWanted (build ∷ ks)
  further : (k : Kind) (ks : List Kind) → IsWanted ks → IsWanted (k ∷ ks)

-- The package `b` is among the dependencies, and not only for tests.
pub data Uses (b : Text) : List Dep → Type 0 where
  here : (d : Dep) (ds : List Dep) → d.pkg ≡ b → IsWanted d.dep_kinds → Uses b (d ∷ ds)
  there : (d : Dep) (ds : List Dep) → Uses b ds → Uses b (d ∷ ds)

any-IsWanted : (ks : List Kind) → any selected ks ≡ true → IsWanted ks
unfolding any
any-IsWanted [] h = cc h
any-IsWanted (normal ∷ ks) h = as_normal ks
any-IsWanted (build ∷ ks) h = as_build ks
any-IsWanted (dev ∷ ks) h = further dev ks (any-IsWanted ks h)

IsWanted-any : (ks : List Kind) → IsWanted ks → any selected ks ≡ true
unfolding any
IsWanted-any _ (as_normal ks) = refl
IsWanted-any _ (as_build ks) = refl
IsWanted-any _ (further k ks w) = let later = IsWanted-any ks w in ground (arith, later)

listed-Uses : (b : Text) (ds : List Dep) → listed b (selected_deps ds) ≡ true → Uses b ds
unfolding selected_deps listed
listed-Uses b [] h = cc h
listed-Uses b (d ∷ ds) h = elim (Bool-cases (any selected d.dep_kinds)) [
  | inl e ↦
      let first : listed b (d.pkg ∷ selected_deps ds) ≡ true = ground (arith, h, e) in
      elim (listed-cons b d.pkg (selected_deps ds) first) [
        | inl same ↦ here d ds (sym same) (any-IsWanted d.dep_kinds e)
        | inr l ↦ there d ds (listed-Uses b ds l)
      ]
  | inr e ↦ there d ds (listed-Uses b ds (ground (arith, h, e)))
]

Uses-listed : (b : Text) (ds : List Dep) → Uses b ds → listed b (selected_deps ds) ≡ true
unfolding selected_deps
Uses-listed b _ (here d ds e w) =
    let wanted = IsWanted-any d.dep_kinds w in
    rw wanted (
      subst (λ p. listed b (p ∷ selected_deps ds) ≡ true) (sym e)
        (listed-here b (selected_deps ds)))
Uses-listed b _ (there d ds u) =
    let later = Uses-listed b ds u in
    elim (Bool-cases (any selected d.dep_kinds)) [
      | inl e ↦ rw e (listed-there b d.pkg (selected_deps ds) later)
      | inr e ↦ rw e later
    ]

module _ (nodes : List Node) where
  -- A package is one that the root depends on by a chain of normal and build dependencies.
  pub data Needs (root : Text) : Text → Type 0 where
    itself : Needs root root
    through :
        (a b : Text) (deps : List Dep)
        → Needs root a
        → deps_of a nodes ≡ some deps
        → Uses b deps
        → Needs root b

  -- What one turn of the loop does.
  pub reach-cons :
      (fuel : ℕ) (reached : List Text) (i : Text) (pending : List Text) (out : List Text)
      → reach nodes (suc fuel) reached (i ∷ pending) ≡ ok out
      → ((listed i reached ≡ true) × (reach nodes fuel reached pending ≡ ok out))
        ⊎ ((deps : List Dep) × (deps_of i nodes ≡ some deps)
            × (reach nodes fuel (i ∷ reached) (push_all (selected_deps deps) pending) ≡ ok out))
  unfolding reach
  reach-cons fuel reached i pending out h = elim (Bool-cases (listed i reached)) [
    | inl e ↦ inl (e, ground (arith, h, e))
    | inr e ↦ elim (Option-cases (deps_of i nodes)) [
      | inl n ↦ ground (arith, h, e, n)
      | inr (deps, n) ↦ inr (deps, n, ground (arith, h, e, n))
    ]
  ]

  reach_sound :
      (P : Text → Type 0)
      (next : (a b : Text) (deps : List Dep)
        → P a
        → deps_of a nodes ≡ some deps
        → listed b (selected_deps deps) ≡ true
        → P b)
      (fuel : ℕ) (reached pending out : List Text)
      → reach nodes fuel reached pending ≡ ok out
      → ((x : Text) → listed x reached ≡ true → P x)
      → ((x : Text) → listed x pending ≡ true → P x)
      → (x : Text) → listed x out ≡ true
      → P x
  unfolding reach listed
  reach_sound P next fuel reached [] out h r p x l =
      let e : reached ≡ out = cc h in r x (subst (λ t. listed x t ≡ true) (sym e) l)
  reach_sound P next zero reached (i ∷ pending) out h r p x l = cc h
  reach_sound P next (suc fuel) reached (i ∷ pending) out h r p x l =
      elim (reach-cons fuel reached i pending out h) [
        | inl (seen, rest) ↦
            reach_sound P next fuel reached pending out rest r
              (λ y m. p y (listed-there y i pending m)) x l
        | inr (deps, d, rest) ↦
            (let here = p i (listed-here i pending) in
              reach_sound P next fuel (i ∷ reached) (push_all (selected_deps deps) pending) out rest
                (λ y m. elim (listed-cons y i reached m) [
                  | inl e ↦ subst P (sym e) here
                  | inr n ↦ r y n
                ])
                (λ y m. elim (push_all-either y (selected_deps deps) pending m) [
                  | inl n ↦ next i y deps here d n
                  | inr n ↦ p y (listed-there y i pending n)
                ])
                x l)
      ]

  -- What is reached stays, and what is pending is reached in the end.
  reach-keeps :
      (fuel : ℕ) (reached pending out : List Text) (x : Text)
      → reach nodes fuel reached pending ≡ ok out
      → (listed x reached ≡ true) ⊎ (listed x pending ≡ true)
      → listed x out ≡ true
  unfolding reach listed
  reach-keeps fuel reached [] out x h (inl l) =
      let e : reached ≡ out = cc h in subst (λ t. listed x t ≡ true) e l
  reach-keeps fuel reached [] out x h (inr l) = cc l
  reach-keeps zero reached (i ∷ pending) out x h l = cc h
  reach-keeps (suc fuel) reached (i ∷ pending) out x h l =
      elim (reach-cons fuel reached i pending out h) [
        | inl (seen, rest) ↦ reach-keeps fuel reached pending out x rest (stays seen l)
        | inr (deps, d, rest) ↦
            reach-keeps fuel (i ∷ reached) (push_all (selected_deps deps) pending) out x rest
              (moves deps l)
      ]
    where
      stays :
          listed i reached ≡ true
          → (listed x reached ≡ true) ⊎ (listed x (i ∷ pending) ≡ true)
          → (listed x reached ≡ true) ⊎ (listed x pending ≡ true)
      stays seen (inl l) = inl l
      stays seen (inr l) = elim (listed-cons x i pending l) [
        | inl e ↦ inl (subst (λ t. listed t reached ≡ true) (sym e) seen)
        | inr m ↦ inr m
      ]

      moves :
          (deps : List Dep)
          → (listed x reached ≡ true) ⊎ (listed x (i ∷ pending) ≡ true)
          → (listed x (i ∷ reached) ≡ true)
            ⊎ (listed x (push_all (selected_deps deps) pending) ≡ true)
      moves deps (inl l) = inl (listed-there x i reached l)
      moves deps (inr l) = elim (listed-cons x i pending l) [
        | inl e ↦ inl (subst (λ t. listed t (i ∷ reached) ≡ true) (sym e) (listed-here i reached))
        | inr m ↦ inr (push_all-pending x (selected_deps deps) pending m)
      ]

  -- The selected dependencies of `x` are in `out`.
  abbrev pub Closed : List Text → Text → Type 0
  Closed out x =
      (deps : List Dep) × (deps_of x nodes ≡ some deps)
      × ((y : Text) → listed y (selected_deps deps) ≡ true → listed y out ≡ true)

  reach-Closed :
      (fuel : ℕ) (reached pending out : List Text)
      → reach nodes fuel reached pending ≡ ok out
      → ((x : Text) → listed x reached ≡ true → Closed out x)
      → (x : Text) → listed x out ≡ true
      → Closed out x
  unfolding reach
  reach-Closed fuel reached [] out h r x l =
      let e : reached ≡ out = cc h in r x (subst (λ t. listed x t ≡ true) (sym e) l)
  reach-Closed zero reached (i ∷ pending) out h r x l = cc h
  reach-Closed (suc fuel) reached (i ∷ pending) out h r x l =
      elim (reach-cons fuel reached i pending out h) [
        | inl (seen, rest) ↦ reach-Closed fuel reached pending out rest r x l
        | inr (deps, d, rest) ↦
            (let more = push_all (selected_deps deps) pending in
              let now : Closed out i = (
                deps,
                d,
                λ y n.
                    reach-keeps fuel (i ∷ reached) more out y rest
                      (inr (push_all-new y (selected_deps deps) pending n)),
              ) in
              reach-Closed fuel (i ∷ reached) more out rest
                (λ y m. elim (listed-cons y i reached m) [
                  | inl e ↦ subst (Closed out) (sym e) now
                  | inr n ↦ r y n
                ])
                x l)
      ]

  Needs-listed :
      (root x : Text) (out : List Text)
      → listed root out ≡ true
      → ((y : Text) → listed y out ≡ true → Closed out y)
      → Needs root x
      → listed x out ≡ true
  Needs-listed root x out r c itself = r
  Needs-listed root x out r c (through a b deps n d u) =
      let l = Uses-listed b deps u in
      let (deps', d', all) = c a (Needs-listed root a out r c n) in
      let same : deps ≡ deps' = cc (d, d') in
      all b (subst (λ t. listed b (selected_deps t) ≡ true) same l)

  reached_from-Closed :
      (root : Text) (out : List Text)
      → reached_from nodes root ≡ ok out
      → (listed root out ≡ true) × ((x : Text) → listed x out ≡ true → Closed out x)
  unfolding reached_from listed
  reached_from-Closed root out h = (
    reach-keeps (1 + edges nodes) [] (root ∷ []) out root h (inr (listed-here root [])),
    reach-Closed (1 + edges nodes) [] (root ∷ []) out h (λ y l. cc l),
  )

  -- If the loop returns, `reached` lists exactly the packages that the root depends on by a chain of
  -- normal and build dependencies, the root among them.
  pub reached_from_iff :
      (root x : Text) (out : List Text)
      → reached_from nodes root ≡ ok out
      → (listed x out ≡ true) ↔ Needs root x
  unfolding reached_from listed
  reached_from_iff root x out h =
      let (first, closed) = reached_from-Closed root out h in
      (
        reach_sound (Needs root) (λ a b deps n d l. through a b deps n d (listed-Uses b deps l))
            (1 + edges nodes) [] (root ∷ []) out h (λ y l. cc l)
            (λ y l. elim (listed-cons y root [] l) [
              | inl e ↦ subst (Needs root) (sym e) itself
              | inr m ↦ cc m
            ])
            x,
        Needs-listed root x out first closed,
      )
