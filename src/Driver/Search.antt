-- ===== src/Driver/Search.antt =====
-- The search for the network interface.
use Prim.Native.String.{String}
use text.Mathlib.Text.{◌==◌ as str_eq}
use text.Mathlib.TextEquality.{eq_iff}
use defrizer.Common.{
  ◌≡◌, ◌≢◌, ◌⊎◌, refl, ap, inl, inr, List, [], ◌∷◌, ◌++◌, Bool-cases, pos, minus_one,
}
use defrizer.Driver.{NetInterface, find_ifindex}

-- No interface of the list has the name.
unfoldable pub Lacks : String → List NetInterface → Type 0
Lacks link_name [] = Unit {0}
Lacks link_name (iface ∷ rest) = (iface.name ≢ link_name) × Lacks link_name rest

-- `main` finds the index of the first interface that has the name, or -1 if there is none.
pub find_ifindex_lem :
    (link_name : String) (interfaces : List NetInterface)
    → ((find_ifindex link_name interfaces ≡ minus_one) × Lacks link_name interfaces)
      ⊎ ((before : List NetInterface) × (iface : NetInterface) × (behind : List NetInterface)
          × (interfaces ≡ before ++ iface ∷ behind)
          × Lacks link_name before
          × (iface.name ≡ link_name)
          × (find_ifindex link_name interfaces ≡ pos iface.index))
unfolding find_ifindex Lacks
find_ifindex_lem link_name [] = inl (refl, tt)
find_ifindex_lem link_name (iface ∷ rest) = elim (Bool-cases (str_eq (iface.name) link_name)) [
  | inl same ↦ inr ([], iface, rest, refl, tt, (eq_iff (iface.name) link_name).0 same, rw same)
  | inr other ↦
      let apart : iface.name ≢ link_name = λ e. cc ((eq_iff (iface.name) link_name).1 e, other) in
      elim (find_ifindex_lem link_name rest) [
        | inl (absent, lacks) ↦ inl (rw other absent, (apart, lacks))
        | inr (before, found, behind, split, lacks, named, index) ↦ inr (
          iface ∷ before,
          found,
          behind,
          ap (λ l. iface ∷ l) split,
          (apart, lacks),
          named,
          rw other index,
        )
      ]
]
