-- ===== src/Translate/Listed.antt =====
-- Which texts a list has, independent of the tests of edge/translate.go.
use ndc_mock.Prelude.{
  ◌≡◌, refl, Bool, true, false, List, [], ◌∷◌, String, if◌then◌else◌, ◌==◌, string_eq, Bool-cases,
  inl, inr,
}
use ndc_mock.Translate.Penalties.{contains}

-- Whether a text is on a list.
unfoldable pub listed : List String → String → Bool
listed [] a = false
listed (b ∷ l) a = if b == a then true else listed l a

pub contains-listed : (l : List String) (a : String) → contains l a ≡ listed l a
unfolding contains listed
contains-listed [] a = refl
contains-listed (b ∷ l) a = elim (Bool-cases (b == a)) [
  | inl e ↦ rw e refl
  | inr e ↦ rw e (contains-listed l a)
]
