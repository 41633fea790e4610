-- ===== src/Files/Maps.antt =====
-- What the reads of one binding and of one content find after the statements of app/files.py.
use smdr.Files.Calls.{mapped}
use smdr.Prelude.{
  ◌≡◌, String, true, List, same, if◌then◌else◌, arith, eq_iff, ◌&&◌, none, Option-cases, inl, inr,
  refl, ◌++◌, ◌∷◌, [], some,
}
use smdr.Versions.Rows.{Binding}
use smdr.Versions.Creation.{binding_clashes}
use smdr.Table.{first, update, delete}
use smdr.Table.Rows.{first-update, first_sound, first-append}
use smdr.Table.Deletes.{first-delete}
use smdr.Table.Unique.{IsUnique}
use smdr.Files.Rows.{Content, is_binding}

abbrev pub IsKept : (Binding → Binding) → Type 0
IsKept g = (b : Binding) → ((g b).version_id ≡ b.version_id) × ((g b).file_id ≡ b.file_id)

same_binding :
    (v i u j : String) (b : Binding)
    → is_binding u j b ≡ true
    → is_binding v i b ≡ (same v u && same i j)
same_binding v i u j b h = ground (
  arith,
  eq_iff b.version_id u,
  eq_iff b.file_id j,
  eq_iff b.version_id v,
  eq_iff b.file_id i,
  eq_iff v u,
  eq_iff i j,
)

pub binding_of-update :
    (v i u j : String) (g : Binding → Binding)
    → IsKept g
    → (t : List Binding)
    → first (is_binding u j) (update (is_binding v i) g t) ≡ (
        if same v u && same i j
        then mapped g (first (is_binding u j) t)
        else first (is_binding u j) t)
binding_of-update v i u j g kept t =
    rw (first-update (is_binding u j) (is_binding v i) g (λ b. rw ((kept b).0, (kept b).1) refl) t)
      (elim (Option-cases (first (is_binding u j) t)) [
        | inl e ↦ ground (arith)
        | inr (b, e) ↦ ground (arith, same_binding v i u j b (first_sound (is_binding u j) t b e))
      ])

pub one_binding :
    (u j : String) (a b : Binding)
    → is_binding u j a ≡ true
    → is_binding u j b ≡ true
    → binding_clashes b a ≡ true
one_binding u j a b p q = ground (
  arith,
  eq_iff a.version_id u,
  eq_iff a.file_id j,
  eq_iff b.version_id u,
  eq_iff b.file_id j,
  eq_iff b.version_id a.version_id,
  eq_iff b.file_id a.file_id,
)

pub binding_of-delete :
    (v i u j : String) (t : List Binding)
    → IsUnique binding_clashes t
    → first (is_binding u j) (delete (is_binding v i) t)
      ≡ (if same v u && same i j then none else first (is_binding u j) t)
binding_of-delete v i u j t unique =
    rw (first-delete binding_clashes (is_binding u j) (is_binding v i) (one_binding u j) t unique)
      (elim (Option-cases (first (is_binding u j) t)) [
        | inl e ↦ ground (arith)
        | inr (b, e) ↦ ground (arith, same_binding v i u j b (first_sound (is_binding u j) t b e))
      ])

-- Only the files of the row that is meant change.
pub content_of-update :
    (i j : String) (g : Content → Content)
    → ((c : Content) → (g c).id ≡ c.id)
    → (t : List Content)
    → first (λ f. same f.id j) (update (λ f. same f.id i) g t)
      ≡ (if same i j then mapped g (first (λ f. same f.id j) t) else first (λ f. same f.id j) t)
content_of-update i j g kept t =
    rw (first-update (λ f. same f.id j) (λ f. same f.id i) g (λ c. rw (kept c) refl) t)
      (elim (Option-cases (first (λ f. same f.id j) t)) [
        | inl e ↦ ground (arith)
        | inr (c, e) ↦
            ground (
              arith,
              first_sound (λ f. same f.id j) t c e,
              eq_iff c.id j,
              eq_iff c.id i,
              eq_iff i j,
            )
      ])

pub content_of-append :
    (i j : String) (c : Content) (t : List Content)
    → c.id ≡ i
    → first (λ f. same f.id i) t ≡ none
    → first (λ f. same f.id j) (t ++ c ∷ [])
      ≡ (if same i j then some c else first (λ f. same f.id j) t)
unfolding first
content_of-append i j c t q fresh =
    ground (arith, first-append (λ f. same f.id j) t (c ∷ []), eq_iff c.id j, eq_iff i j)

pub binding_of-append :
    (v i u j : String) (b : Binding) (t : List Binding)
    → b.version_id ≡ v
    → b.file_id ≡ i
    → first (is_binding v i) t ≡ none
    → first (is_binding u j) (t ++ b ∷ [])
      ≡ (if same v u && same i j then some b else first (is_binding u j) t)
unfolding first
binding_of-append v i u j b t q r fresh = ground (
  arith,
  first-append (is_binding u j) t (b ∷ []),
  eq_iff b.version_id u,
  eq_iff b.file_id j,
  eq_iff v u,
  eq_iff i j,
)
