-- ===== src/Index/FileDb/Reload.antt =====
-- What is loaded, of all protocols, after pools of one of them were written.
use mathlib.Core.List.Perm
use mathlib.Core.List.{Perm, perm_append_comm, append_assoc}
use poison_dart.Base.{
  ℕ, suc, ◌≡◌, ◌∙◌, refl, sym, ap, subst, false, Option, some, List, [], ◌∷◌, ◌++◌, map, String,
  All, str_dec, if_pos, if_neg, ◌==◌, if◌then◌else◌, Bool-cases, Result, ok, ok_or, ◌>>=◌,
  Option-cases, Result-cases, ok_err_elim, ok_injective, some_injective, inl, inr, arith,
}
use poison_dart.Base.Map.{Map, insert}
use poison_dart.Index.{Protocol, Pool}
use poison_dart.Index.Cache.{PoolCache, add_pool, add_pools}
use poison_dart.Index.Files.{Serde, pool_to_string, pool_try_from}
use poison_dart.Index.Files.Lines.{IsWritable, pool_try_from-pool_to_string}
use poison_dart.Index.FileDb.{
  Disk, FileDb, discriminant, path_of, lines_of, load_lines, load_protocols, read_lines, flush,
}
use poison_dart.Index.FileDb.Paths.{path_of_injective, path_of_same}

-- How often a protocol is listed.
abbrev pub listed : Protocol → List Protocol → ℕ
listed p [] = 0
listed p (q ∷ qs) = if discriminant q == discriminant p then suc (listed p qs) else listed p qs

pub add_pools-append :
    (cache : PoolCache) (xs ys : List Pool)
    → add_pools cache (xs ++ ys) ≡ add_pools (add_pools cache xs) ys
unfolding add_pools
add_pools-append cache [] ys = refl
add_pools-append cache (x ∷ xs) ys = add_pools-append (add_pool cache x) xs ys

move : {A : Type 0} (a b c : List A) → Perm (a ++ b ++ c) (a ++ c ++ b)
move a b c =
    subst (λ l. Perm l (a ++ c ++ b)) (sym (append_assoc a b c))
      (subst (Perm (a ++ (b ++ c))) (sym (append_assoc a c b))
        (Perm.append_left a (perm_append_comm b c)))

module _ (serde : Serde) where
  -- The pools in the files of these protocols, in the order in which they are loaded.
  abbrev pub pools_in :
      (Protocol → Option String) → Map (List String) → List Protocol → Result (List Pool)
  pools_in paths files [] = ok []
  pools_in paths files (p ∷ ps) = do
    path ← ok_or (paths p) "Protocol not supported"
    here ← read_lines serde (lines_of (files path))
    rest ← pools_in paths files ps
    ok (here ++ rest)

  pools_in-step :
      (paths : Protocol → Option String) (files : Map (List String)) (p : Protocol)
      (ps : List Protocol) (path : String) (here rest : List Pool)
      → paths p ≡ some path
      → read_lines serde (lines_of (files path)) ≡ ok here
      → pools_in paths files ps ≡ ok rest
      → pools_in paths files (p ∷ ps) ≡ ok (here ++ rest)
  pools_in-step paths files p ps path here rest q r t = rw (pools_in, q, r, t) refl

  read_lines-load_lines :
      (lines : List String) (pools : List Pool) (cache : PoolCache)
      → read_lines serde lines ≡ ok pools
      → load_lines serde cache lines ≡ ok (add_pools cache pools)
  unfolding read_lines load_lines add_pools
  read_lines-load_lines [] pools cache e = ap (λ ps. ok (add_pools cache ps)) (ok_injective e)
  read_lines-load_lines (line ∷ lines) pools cache e =
      elim (Result-cases (pool_try_from serde line)) [
        | inr (m, q) ↦ ok_err_elim {m = m} e (rw (read_lines, q) refl)
        | inl (p, q) ↦ elim (Result-cases (read_lines serde lines)) [
          | inr (m, q') ↦ ok_err_elim {m = m} e (rw (read_lines, q, q') refl)
          | inl (ps, q') ↦
              rw (load_lines, q)
                (read_lines-load_lines lines ps (add_pool cache p) q'
                  ∙ ap (λ all. ok (add_pools cache all))
                      (ok_injective (rw (read_lines, q, q') at e)))
        ]
      ]

  read_lines-append :
      (lines : List String) (pools added : List Pool)
      → All (IsWritable serde) added
      → read_lines serde lines ≡ ok pools
      → read_lines serde (lines ++ map (pool_to_string serde) added) ≡ ok (pools ++ added)
  unfolding read_lines
  read_lines-append [] pools added w e =
      written added w ∙ ap (λ ps. ok (ps ++ added)) (ok_injective e)
    where
      written :
          (added : List Pool)
          → All (IsWritable serde) added
          → read_lines serde (map (pool_to_string serde) added) ≡ ok added
      written [] w = refl
      written (p ∷ ps) w =
          rw (read_lines, pool_try_from-pool_to_string serde p w.0, written ps w.1) refl
  read_lines-append (line ∷ lines) pools added w e =
      elim (Result-cases (pool_try_from serde line)) [
        | inr (m, q) ↦ ok_err_elim {m = m} e (rw (read_lines, q) refl)
        | inl (p, q) ↦ elim (Result-cases (read_lines serde lines)) [
          | inr (m, q') ↦ ok_err_elim {m = m} e (rw (read_lines, q, q') refl)
          | inl (ps, q') ↦
              rw (read_lines, q, read_lines-append lines ps added w q')
                (ap (λ all. ok (all ++ added)) (ok_injective (rw (read_lines, q, q') at e)))
        ]
      ]

  -- What is loaded is the pools in the files.
  pub load_protocols-pools_in :
      {E : Type 0} (db : FileDb E) (disk : Disk E) (ps : List Protocol) (cache : PoolCache)
      (pools : List Pool)
      → pools_in db.pools_paths disk.files ps ≡ ok pools
      → load_protocols serde db disk cache ps ≡ ok (add_pools cache pools)
  unfolding load_protocols load_lines add_pools lines_of
  load_protocols-pools_in db disk [] cache pools e =
      ap (λ ps. ok (add_pools cache ps)) (ok_injective e)
  load_protocols-pools_in db disk (p ∷ ps) cache pools e = elim (Option-cases (db.pools_paths p)) [
    | inl q ↦ ok_err_elim {m = "Protocol not supported"} e (rw (pools_in, q) refl)
    | inr (path, q) ↦ elim (Result-cases (read_lines serde (lines_of (disk.files path)))) [
      | inr (m, r) ↦ ok_err_elim {m = m} e (rw (pools_in, q, r) refl)
      | inl (here, r) ↦ elim (Result-cases (pools_in db.pools_paths disk.files ps)) [
        | inr (m, t) ↦ ok_err_elim {m = m} e (rw (pools_in, q, r, t) refl)
        | inl (rest, t) ↦
            let all : here ++ rest ≡ pools = ok_injective (rw (pools_in, q, r, t) at e) in
            let loaded =
              load_protocols-pools_in db disk ps (add_pools cache here) rest t
              ∙ ap ok (sym (add_pools-append cache here rest) ∙ ap (add_pools cache) all) in
            let read = read_lines-load_lines (lines_of (disk.files path)) here cache r in
            elim (Option-cases (disk.files path)) [
              | inl n ↦
                  let same : cache ≡ add_pools cache here =
                    ok_injective (rw (n, load_lines) at read) in
                  rw (load_protocols, q, n)
                    (subst (λ c. load_protocols serde db disk c ps ≡ ok (add_pools cache pools))
                      (sym same) loaded)
              | inr (lines, n) ↦
                  let read' : load_lines serde cache lines ≡ ok (add_pools cache here) =
                    rw n at read in
                  rw (load_protocols, q, n, read') loaded
            ]
      ]
    ]
  ]

  module _ (base_path : String) (protocols : List Protocol) (protocol : Protocol) (path : String)
      (at_path : path_of base_path protocols protocol ≡ some path) (files : Map (List String))
      (lines : List String) where
    elsewhere :
        (q : Protocol) (other : String)
        → discriminant q == discriminant protocol ≡ false
        → path_of base_path protocols q ≡ some other
        → insert files path lines other ≡ files other
    elsewhere q other d e =
        if_neg (str_dec other path)
          (λ same.
            let one =
              path_of_injective base_path protocols q protocol path (e ∙ ap some same) at_path in
            ground arith)
          _ _

    pools_in-elsewhere :
        (ps : List Protocol)
        → listed protocol ps ≡ 0
        → pools_in (path_of base_path protocols) (insert files path lines) ps
          ≡ pools_in (path_of base_path protocols) files ps
    pools_in-elsewhere [] h = refl
    pools_in-elsewhere (q ∷ qs) h = elim (Bool-cases (discriminant q == discriminant protocol)) [
      | inl d ↦ absurd (let h' = rw (listed, d) at h in omega arith)
      | inr d ↦
          let rest = pools_in-elsewhere qs (rw (listed, d) at h) in
          elim (Option-cases (path_of base_path protocols q)) [
            | inl n ↦ rw (pools_in, n) refl
            | inr (other, e) ↦ rw (pools_in, e, elsewhere q other d e, rest) refl
          ]
    ]

  module _ (base_path : String) (protocols : List Protocol) (protocol : Protocol) (path : String)
      (at_path : path_of base_path protocols protocol ≡ some path) (files : Map (List String))
      (added : List Pool) (writable : All (IsWritable serde) added) where
    abbrev written : Map (List String)
    written = insert files path (lines_of (files path) ++ map (pool_to_string serde) added)

    -- The files of protocols of which one is listed once, after pools of this one were written.
    pub pools_in-written :
        (ps : List Protocol) (pools : List Pool)
        → listed protocol ps ≡ 1
        → pools_in (path_of base_path protocols) files ps ≡ ok pools
        → (pools' : List Pool) × (pools_in (path_of base_path protocols) written ps ≡ ok pools')
          × Perm pools' (pools ++ added)
    unfolding lines_of
    pools_in-written [] pools h e = absurd (omega arith)
    pools_in-written (q ∷ qs) pools h e = elim (Option-cases (path_of base_path protocols q)) [
      | inl n ↦ ok_err_elim {m = "Protocol not supported"} e (rw (pools_in, n) refl)
      | inr (other, at) ↦ elim (Result-cases (read_lines serde (lines_of (files other)))) [
        | inr (m, r) ↦ ok_err_elim {m = m} e (rw (pools_in, at, r) refl)
        | inl (here, r) ↦ elim (Result-cases (pools_in (path_of base_path protocols) files qs)) [
          | inr (m, t) ↦ ok_err_elim {m = m} e (rw (pools_in, at, r, t) refl)
          | inl (rest, t) ↦
              let all : here ++ rest ≡ pools = ok_injective (rw (pools_in, at, r, t) at e) in
              elim (Bool-cases (discriminant q == discriminant protocol)) [
                | inl d ↦
                    let same : other ≡ path = some_injective (
                      sym at
                      ∙ path_of_same base_path protocols q protocol (ground arith)
                      ∙ at_path) in
                    let others =
                      pools_in-elsewhere base_path protocols protocol path at_path files
                        (lines_of (files path) ++ map (pool_to_string serde) added) qs
                        (let h' = rw (listed, d) at h in omega arith) in
                    let more =
                      read_lines-append (lines_of (files path)) here added writable
                        (subst (λ o. read_lines serde (lines_of (files o)) ≡ ok here) same r) in
                    (
                      here ++ added ++ rest,
                      pools_in-step (path_of base_path protocols) written q qs other (here ++ added)
                          rest at
                          (ap (λ o. read_lines serde (lines_of o))
                              (if_pos (str_dec other path) same _ _)
                            ∙ more)
                          (others ∙ t),
                      subst (λ l. Perm (here ++ added ++ rest) (l ++ added)) all
                          (move here added rest),
                    )
                | inr d ↦
                    let (rest', found, perm) = pools_in-written qs rest (rw (listed, d) at h) t in
                    (
                      here ++ rest',
                      pools_in-step (path_of base_path protocols) written q qs other here rest' at
                          (ap (λ o. read_lines serde (lines_of o))
                              (elsewhere base_path protocols protocol path at_path files
                                (lines_of (files path) ++ map (pool_to_string serde) added) q other
                                d at)
                            ∙ r)
                          found,
                      subst (λ l. Perm (here ++ rest') (l ++ added)) all
                          (subst (Perm (here ++ rest')) (sym (append_assoc here rest added))
                            (Perm.append_left here perm)),
                    )
              ]
        ]
      ]
    ]

  -- A protocol that is listed has a file.
  pub listed-path :
      (paths : Protocol → Option String) (files : Map (List String)) (p : Protocol)
      (ps : List Protocol) (pools : List Pool)
      → listed p ps ≡ 1
      → pools_in paths files ps ≡ ok pools
      → ((q : Protocol) → discriminant q ≡ discriminant p → paths q ≡ paths p)
      → (path : String) × (paths p ≡ some path)
  listed-path paths files p [] pools h e same = absurd (omega arith)
  listed-path paths files p (q ∷ qs) pools h e same = elim (Option-cases (paths q)) [
    | inl n ↦ ok_err_elim {m = "Protocol not supported"} e (rw (pools_in, n) refl)
    | inr (path, at) ↦ elim (Bool-cases (discriminant q == discriminant p)) [
      | inl d ↦ (path, sym (same q (ground arith)) ∙ at)
      | inr d ↦ elim (Result-cases (read_lines serde (lines_of (files path)))) [
        | inr (m, r) ↦ ok_err_elim {m = m} e (rw (pools_in, at, r) refl)
        | inl (here, r) ↦ elim (Result-cases (pools_in paths files qs)) [
          | inr (m, t) ↦ ok_err_elim {m = m} e (rw (pools_in, at, r, t) refl)
          | inl (rest, t) ↦ listed-path paths files p qs rest (rw (listed, d) at h) t same
        ]
      ]
    ]
  ]

  -- What a flush writes.
  pub flush-written :
      {E : Type 0} (db : FileDb E) (disk : Disk E) (protocol : Protocol) (path : String)
      (pools : List Pool) (cursor : Option E) (saved : FileDb E × Disk E)
      → db.pools_paths protocol ≡ some path
      → flush serde db disk protocol pools cursor ≡ ok saved
      → (saved.0.pools_paths ≡ db.pools_paths)
        × (saved.1.cursors_file ≡ some saved.0.processed_cursors)
        × (saved.1.files
            ≡ insert disk.files path
                (lines_of (disk.files path) ++ map (pool_to_string serde) pools))
  unfolding flush
  flush-written {E = E} db disk protocol path pools cursor saved at_path f =
      subst
        (λ (r : FileDb E × Disk E).
          (r.0.pools_paths ≡ db.pools_paths)
          × (r.1.cursors_file ≡ some r.0.processed_cursors)
          × (r.1.files
              ≡ insert disk.files path
                  (lines_of (disk.files path) ++ map (pool_to_string serde) pools)))
        (ok_injective (rw (flush, at_path) at f)) (refl, refl, refl)
