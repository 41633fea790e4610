-- ===== src/Jobs/Eligible.antt =====
-- What the reprocess-all of app/jobs.py submits: the scan with its cache, and the INSERTs.
use smdr.Prelude.{
  List, [], ◌∷◌, ◌++◌, String, ◌≡◌, Bool, All, some, Bool-cases, Option, if◌then◌else◌, false, not,
  eq_refl, ◌&&◌, same, Option-cases, ◌+◌, inl, refl, is_some, subst, inr, ap, eq_iff, All-append,
  arith, none, sym, true, ℕ, All-weaken, ◌∙◌,
}
use smdr.Table.{select, count}
use smdr.Table.Inserts.{append_nil, append_cons}
use smdr.Versions.Rows.{Db}
use smdr.Files.Rows.{FileRecord}
use smdr.Jobs.Reprocess.{
  Cache, Scan, cached, scan_binding, scan_bindings, open_library, is_skipped_status, with_library,
  skip,
}

-- A binding past the choice of its layers, on a version that exists and is not signed off.
abbrev pub is_eligible : Db → FileRecord → Bool
is_eligible db r =
    not (is_skipped_status r.binding.status) && is_some (open_library db r.binding.version_id)

module _ (db : Db) where
  abbrev IsSound : Cache → Type 0
  IsSound c = (v : String) (l : Option String) → cached v c ≡ some l → l ≡ open_library db v

  abbrev pub IsKnown : Cache → FileRecord → Type 0
  IsKnown c r = cached r.binding.version_id c ≡ some (open_library db r.binding.version_id)

  abbrev extended : String → Cache → Cache
  extended v c = (v, open_library db v) ∷ c

  cached-extended :
      (v w : String) (c : Cache)
      → cached w c ≡ some (open_library db w)
      → cached w (extended v c) ≡ some (open_library db w)
  unfolding cached
  cached-extended v w c h = elim (Bool-cases (same v w)) [
    | inl e ↦ rw e (ap (λ x. some (open_library db x)) ((eq_iff v w).0 e))
    | inr e ↦ rw e h
  ]

  cached_own : (v : String) (c : Cache) → cached v (extended v c) ≡ some (open_library db v)
  unfolding cached
  cached_own v c = rw (eq_refl v) refl

  IsSound-extended : (v : String) (c : Cache) → IsSound c → IsSound (extended v c)
  unfolding cached
  IsSound-extended v c h w l e = elim (Bool-cases (same v w)) [
    | inl y ↦ subst (λ x. l ≡ open_library db x) ((eq_iff v w).0 y) (ground (arith, e, y))
    | inr n ↦ h w l (ground (arith, e, n))
  ]

  -- What the scan keeps: its cache is sound, and knows the bindings that were eligible.
  abbrev pub Holds : Scan → Type 0
  Holds s = IsSound s.lib_by_version × All (IsKnown s.lib_by_version) s.eligible

  abbrev Scans : FileRecord → Scan → Scan → Type 0
  Scans r s s' =
      (s'.eligible ≡ (if is_eligible db r then s.eligible ++ r ∷ [] else s.eligible))
      × (s'.skipped ≡ (if is_eligible db r then s.skipped else s.skipped + 1))

  with_library-Scans :
      (r : FileRecord) (s : Scan)
      → is_skipped_status r.binding.status ≡ false
      → Holds s
      → IsKnown s.lib_by_version r
      → Holds (with_library r (open_library db r.binding.version_id) s)
        × Scans r s (with_library r (open_library db r.binding.version_id) s)
  with_library-Scans r s open_status h known =
      elim (Option-cases (open_library db r.binding.version_id)) [
        | inl e ↦ rw (e, open_status) (h, (refl, refl))
        | inr (l, e) ↦
            rw (e, open_status)
              (
                (h.0, All-append (IsKnown s.lib_by_version) s.eligible (r ∷ []) h.1 (known, tt)),
                (refl, refl),
              )
      ]

  scan_binding-skip :
      (r : FileRecord) (s : Scan)
      → is_skipped_status r.binding.status ≡ true
      → scan_binding db r s ≡ skip s
  unfolding scan_binding
  scan_binding-skip r s e = rw e refl

  scan_binding-cached :
      (r : FileRecord) (s : Scan) (l : Option String)
      → is_skipped_status r.binding.status ≡ false
      → cached r.binding.version_id s.lib_by_version ≡ some l
      → scan_binding db r s ≡ with_library r l s
  unfolding scan_binding
  scan_binding-cached r s l e c = rw (e, c) refl

  scan_binding-read :
      (r : FileRecord) (s : Scan)
      → is_skipped_status r.binding.status ≡ false
      → cached r.binding.version_id s.lib_by_version ≡ none
      → scan_binding db r s
        ≡ with_library r
            (open_library db r.binding.version_id)
            (record s { lib_by_version = extended r.binding.version_id s.lib_by_version })
  unfolding scan_binding
  scan_binding-read r s e c = rw (e, c) refl

  scan_binding-Scans :
      (r : FileRecord) (s : Scan)
      → Holds s
      → Holds (scan_binding db r s) × Scans r s (scan_binding db r s)
  scan_binding-Scans r s h = elim (Bool-cases (is_skipped_status r.binding.status)) [
    | inl y ↦ rw (scan_binding-skip r s y, y) (h, (refl, refl))
    | inr n ↦
        let v = r.binding.version_id in
        elim (Option-cases (cached v s.lib_by_version)) [
          | inl c ↦
              subst (λ x. Holds x × Scans r s x) (sym (scan_binding-read r s n c))
                (with_library-Scans r (record s { lib_by_version = extended v s.lib_by_version }) n
                  (
                    IsSound-extended v s.lib_by_version h.0,
                    All-weaken (IsKnown s.lib_by_version) (IsKnown (extended v s.lib_by_version))
                        s.eligible (λ q. cached-extended v q.binding.version_id s.lib_by_version)
                        h.1,
                  )
                  (cached_own v s.lib_by_version))
          | inr (l, c) ↦
              let q : l ≡ open_library db v = h.0 v l c in
              subst (λ x. Holds x × Scans r s x)
                (sym (scan_binding-cached r s l n c ∙ ap (λ k. with_library r k s) q))
                (with_library-Scans r s n h (c ∙ ap some q))
        ]
  ]

  unfoldable pub count_skipped : List FileRecord → ℕ
  count_skipped rs = count (λ r. not (is_eligible db r)) rs

  pub scan_bindings-lem :
      (rs : List FileRecord) (s : Scan)
      → Holds s
      → Holds (scan_bindings db rs s)
        × ((scan_bindings db rs s).eligible ≡ s.eligible ++ select (is_eligible db) rs)
        × ((scan_bindings db rs s).skipped ≡ s.skipped + count_skipped rs)
  unfolding scan_bindings select count count_skipped
  scan_bindings-lem [] s h = (h, sym (append_nil s.eligible), omega arith)
  scan_bindings-lem (r ∷ rs) s h =
      let (h', (el, sk)) = scan_binding-Scans r s h in
      let (h'', el', sk') = scan_bindings-lem rs (scan_binding db r s) h' in
      (
        h'',
        elim (Bool-cases (is_eligible db r)) [
          | inl y ↦ rw (el', el, y) (append_cons s.eligible (select (is_eligible db) rs) r)
          | inr n ↦ rw (el', el, n) refl
        ],
        ground (arith, sk, sk'),
      )
