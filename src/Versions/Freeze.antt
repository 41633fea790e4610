-- ===== src/Versions/Freeze.antt =====
-- What a sign-off freezes: the row of a version that is signed off stays as it is, under every method of
-- app/versions.py and app/products.py but the withdrawal and the deletion of its product.
use smdr.Table.Members.{All-of_mem, All-order_by}
use smdr.Versions.Methods.{get, sign_off, set_check_dam}
use smdr.Versions.Methods.{set_customer, delete_product, list_by_product}
use smdr.Table.{select}
use smdr.Table.Rows.{first-append, Memᴰ-select}
use smdr.Table.Keys.{by_key, by_key-update, first-delete_other, by_key-mem}
use smdr.Versions.Creation.{
  delete_versions, delete_version, delete_for_product, create_product, create_first, create_clone,
}
use smdr.Versions.Rows.{Version, Db, after, version_of}
use smdr.Prelude.{
  List, String, same, ◌≡◌, All, false, some, ◌∷◌, [], ◌∙◌, arith, eq_iff, Bool-cases, inl, inr, sym,
  ap, ℕ, Bool, Option, refl, subst,
}
use smdr.Versions.Runs.{
  VersionCall, perform_version, run_versions, add_product, add_first, add_clone, freeze, withdraw,
  flag_dam, assign, drop_versions, drop_product,
}
use smdr.Versions.Labels.{
  IsDistinct, IsDistinct-IsKeyed, Grows, after-Grows, create_product-Grows, create_first-Grows,
  create_clone-Grows, new_row, same_rows,
}
use smdr.Versions.Distinct.{
  Edits, unsign-Edits, sign_off-Edits, set_check_dam-Edits, perform_version-IsDistinct, edited,
  untouched,
}

-- The calls that withdraw the sign-off of `v` or delete the versions of its product are left out.
abbrev pub Leaves : Version → VersionCall → Type 0
Leaves v (add_product product_id vid library_id now name label customer_id) = Unit
Leaves v (add_first vid library_id now product_id label) = Unit
Leaves v (add_clone vid library_id ids now later product_id label source) = Unit
Leaves v (freeze version_id by now name content_type) = Unit
Leaves v (withdraw version_id) = same v.id version_id ≡ false
Leaves v (flag_dam version_id value) = Unit
Leaves v (assign product_id customer_id) = Unit
Leaves v (drop_versions product_id) = same v.product_id product_id ≡ false
Leaves v (drop_product product_id) = Unit

module _ (v : Version) where
  -- The row of `v` is in the table, as it is.
  abbrev IsKept : List Version → Type 0
  IsKept t = by_key (λ w. w.id) v.id t ≡ some v

  Grows-keeps : {t u : List Version} → Grows t u → IsKept t → IsKept u
  Grows-keeps same_rows e = e
  Grows-keeps {t} (new_row w fresh) e = rw (first-append (λ x. same x.id v.id) t (w ∷ [])) (rw e)

  Edits-keeps :
      {k : String} {t u : List Version} → Edits k t u → same v.id k ≡ false → IsKept t → IsKept u
  Edits-keeps untouched o e = e
  Edits-keeps {k} {t} (edited f left right keeps) o e =
      by_key-update (λ w. w.id) (λ w. same w.id k) f keeps v.id t ∙ rw e (rw o)

  delete_versions-keeps :
      (vs : List Version) (db : Db)
      → All (λ w. same v.id w.id ≡ false) vs
      → IsKept db.versions
      → IsKept (delete_versions vs db).versions
  unfolding delete_versions
  delete_versions-keeps [] db o e = e
  delete_versions-keeps (w ∷ vs) db o e = delete_versions-keeps vs (delete_version w db) o.1 (
      first-delete_other (λ x. same x.id v.id) (λ x. same x.id w.id)
        (λ x q. ground (arith, eq_iff x.id v.id, o.0)) db.versions
      ∙ e)

  -- No version of another product has the id of `v`.
  others :
      (product_id : String) (t : List Version)
      → IsDistinct t
      → IsKept t
      → same v.product_id product_id ≡ false
      → All (λ w. same v.id w.id ≡ false) (select (λ w. same w.product_id product_id) t)
  others product_id t h e o = All-of_mem _ (select (λ w. same w.product_id product_id) t) (λ w m.
      let (at, meets) = Memᴰ-select (λ w. same w.product_id product_id) t m in
      let found = by_key-mem (λ x. x.id) t (IsDistinct-IsKeyed t h) at in
      elim (Bool-cases (same v.id w.id)) [
        | inl q ↦
            (let at_v : some v ≡ some w =
                sym e ∙ ap (λ k. by_key (λ x. x.id) k t) ((eq_iff v.id w.id).0 q) ∙ found in
              cc)
        | inr n ↦ n
      ])

  module _ (by : String) (frozen : v.signed_off_by ≡ some by) where
    sign_off-refused :
        (version_id by : String) (now : ℕ) (name content_type : Option String) (db : Db)
        → version_of version_id db ≡ some v
        → after db (sign_off version_id by now name content_type db) ≡ db
    unfolding sign_off after
    sign_off-refused version_id by now name content_type db at = rw (at, frozen, after) refl

    set_check_dam-refused :
        (version_id : String) (value : Bool) (db : Db)
        → version_of version_id db ≡ some v
        → after db (set_check_dam version_id value db) ≡ db
    unfolding set_check_dam after
    set_check_dam-refused version_id value db at = rw (at, frozen, after) refl

    perform_version-keeps :
        (c : VersionCall) (db : Db)
        → Leaves v c
        → IsDistinct db.versions
        → IsKept db.versions
        → IsKept (perform_version c db).versions
    unfolding perform_version set_customer delete_product delete_for_product list_by_product
    perform_version-keeps (add_product product_id vid library_id now name label customer_id) db o h
          e =
        Grows-keeps
          (after-Grows db (create_product product_id vid library_id now name label customer_id db)
            (create_product-Grows product_id vid library_id now name label customer_id db))
          e
    perform_version-keeps (add_first vid library_id now product_id label) db o h e =
        Grows-keeps
          (after-Grows db (create_first vid library_id now product_id label db)
            (create_first-Grows vid library_id now product_id label db))
          e
    perform_version-keeps (add_clone vid library_id ids now later product_id label source) db o h
          e =
        Grows-keeps
          (after-Grows db (create_clone vid library_id ids now later product_id label source db)
            (create_clone-Grows vid library_id ids now later product_id label source db))
          e
    perform_version-keeps (freeze version_id by now name content_type) db o h e =
        elim (Bool-cases (same v.id version_id)) [
          | inl q ↦
              subst (λ d. IsKept d.versions)
                (sym (
                  sign_off-refused version_id by now name content_type db
                    (ap (λ k. version_of k db) (sym ((eq_iff v.id version_id).0 q)) ∙ e)))
                e
          | inr n ↦ Edits-keeps (sign_off-Edits version_id by now name content_type db) n e
        ]
    perform_version-keeps (withdraw version_id) db o h e =
        Edits-keeps (unsign-Edits version_id db) o e
    perform_version-keeps (flag_dam version_id value) db o h e =
        elim (Bool-cases (same v.id version_id)) [
          | inl q ↦
              subst (λ d. IsKept d.versions)
                (sym (
                  set_check_dam-refused version_id value db
                    (ap (λ k. version_of k db) (sym ((eq_iff v.id version_id).0 q)) ∙ e)))
                e
          | inr n ↦ Edits-keeps (set_check_dam-Edits version_id value db) n e
        ]
    perform_version-keeps (assign product_id customer_id) db o h e = e
    perform_version-keeps (drop_versions product_id) db o h e =
        delete_versions-keeps (list_by_product product_id db) db
          (All-order_by _ (λ w. w.created_at)
            (select (λ w. same w.product_id product_id) db.versions)
            (others product_id db.versions h e o))
          e
    perform_version-keeps (drop_product product_id) db o h e = e

    -- In tables whose versions are distinct, a version that is signed off keeps every column, its label,
    -- its flag and its evidence included, through any calls that neither withdraw its sign-off nor
    -- delete the versions of its product.
    pub run_versions-frozen :
        (cs : List VersionCall) (db : Db)
        → All (Leaves v) cs
        → IsDistinct db.versions
        → get v.id db ≡ some v
        → get v.id (run_versions cs db) ≡ some v
    unfolding get run_versions
    run_versions-frozen [] db o h e = e
    run_versions-frozen (c ∷ cs) db o h e =
        run_versions-frozen cs (perform_version c db) o.1 (perform_version-IsDistinct c db h)
          (perform_version-keeps c db o.0 h e)
