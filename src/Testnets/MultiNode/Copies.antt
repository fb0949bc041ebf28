-- ===== src/Testnets/MultiNode/Copies.antt =====
-- What the copying of one genesis transaction leaves: it stands in the directory.
use veranatest.Testnets.MultiNode.Paths.{away_from_dir, base_last, in_same_dir, last_injective}
use veranatest.Testnets.MultiNode.Files.{
  base, copy_file, copy_unless_there, goes_up, is_sub_dir, relative,
}
use veranatest.Prelude.{
  Bool, Bool-cases, Bytes, Ensures, Ensures-bind, Outcome, [], ap, arith, false, false_of,
  if◌then◌else◌, inl, inr, length, not, ok, pure, pure_inversion, refl, some, subst, sym, true, ℕ,
  ◌++◌, ◌>>◌, ◌∙◌, ◌∷◌, ◌≡◌, ◌≢◌,
}
use veranatest.Sdk.Nodes.{FilePath, IsFileSystem, NodeEnv, same_path, same_path_refl, same_path→eq}

module _ (e : NodeEnv) (fs : IsFileSystem e) where
  copy_file_Ensures :
      (src dir : FilePath) (c : Bytes) (s : e.World)
      → src ≢ dir ++ (base src ∷ [])
      → fs.read s src ≡ some c
      → Ensures (copy_file e src dir) s λ n t.
        (q : FilePath)
        → fs.read t q ≡ (if same_path (dir ++ (base src ∷ [])) q then some c else fs.read s q)
  unfolding copy_file
  copy_file_Ensures src dir c s apart there =
      let dst = dir ++ (base src ∷ []) in
      Ensures-bind _ _ λ u1 s1 h1. Ensures-bind _ _ λ u2 s2 h2. Ensures-bind _ _ λ n s3 h3.
        Ensures-bind _ _ λ u4 s4 h4. record {
          at = λ m t h q.
              let other =
                false_of (same_path dst src) (λ y. apart (sym (same_path→eq dst src y))) in
              let opened = fs.open_ok src s s1 h1 in
              let created = fs.create_ok dst s1 s2 h2 in
              let still : fs.read s2 src ≡ some c =
                ground (arith, created src, other, opened src, there) in
              let empty : fs.read s2 dst ≡ some [] =
                ground (arith, created dst, same_path_refl dst) in
              let copied = fs.copy_ok src dst n c s2 s3 h3 apart still empty q in
              let end = (pure_inversion _ m s4 t h).1 in
              ap (λ w. fs.read w q) (sym end)
              ∙ (fs.sync_ok dst s3 s4 h4 q ∙ ground (arith, copied, created q, opened q));
        }

module _ (e : NodeEnv) (fs : IsFileSystem e) (content : Bytes → Bytes) where
  -- The file of this name in the directory has its content.
  abbrev pub Holds : e.World → FilePath → Bytes → Type 0
  Holds w dir x = fs.read w (dir ++ (x ∷ [])) ≡ some (content x)

  abbrev pub Kept : e.World → e.World → Type 0
  Kept s t = (dir : FilePath) (x : Bytes) → Holds s dir x → Holds t dir x

  -- A genesis transaction in a directory `depth` elements deep.
  pub record IsSource (depth : ℕ) (w : e.World) (file : FilePath) : Type 0 where
    pub dir : FilePath
    pub name : Bytes
    pub is : file ≡ dir ++ (name ∷ [])
    pub deep : length dir ≡ depth
    pub plain : goes_up (name ∷ []) ≡ false
    pub held : Holds w dir name

  pub still-IsSource :
      (depth : ℕ) (s t : e.World) (file : FilePath)
      → Kept s t
      → IsSource depth s file
      → IsSource depth t file
  still-IsSource depth s t file k f = record {
    dir = f.dir;
    name = f.name;
    is = f.is;
    deep = f.deep;
    plain = f.plain;
    held = k f.dir f.name f.held;
  }

  written :
      (dir : FilePath) (x : Bytes) (s t : e.World)
      → ((q : FilePath)
          → fs.read t q ≡ (if same_path (dir ++ (x ∷ [])) q then some (content x) else fs.read s q))
      → Kept s t × Holds t dir x
  written dir x s t h = (
    (λ d y held. elim (Bool-cases (same_path (dir ++ (x ∷ [])) (d ++ (y ∷ [])))) [
      | inl q ↦
          let same = last_injective dir d x y (same_path→eq _ _ q) in
          h (d ++ (y ∷ [])) ∙ rw (q) (ap (λ z. some (content z)) same)
      | inr q ↦ h (d ++ (y ∷ [])) ∙ rw (q) held
    ]),
    h (dir ++ (x ∷ [])) ∙ rw (same_path_refl (dir ++ (x ∷ []))) refl,
  )

  -- One round of the inner loop, by whether the file's path goes up from the directory.
  round :
      (file dir : FilePath) (up : Bool) (s : e.World)
      → goes_up (relative (fs.root ++ dir) (fs.root ++ file)) ≡ up
      → copy_unless_there e file dir s
        ≡ (if not up then (ok tt, s) else (copy_file e file dir >> pure tt) s)
  unfolding copy_unless_there is_sub_dir
  round file dir up s h =
      let told : is_sub_dir e file dir s ≡ ok (not up) =
        rw (is_sub_dir, fs.abs_ok file s, fs.abs_ok dir s, h) refl in
      rw (copy_unless_there, told) refl

  copy_one :
      (own dir : FilePath) (x : Bytes) (s t : e.World)
      → length own ≡ length dir
      → goes_up (x ∷ []) ≡ false
      → Holds s own x
      → copy_unless_there e (own ++ (x ∷ [])) dir s ≡ (ok tt, t)
      → Kept s t × Holds t dir x
  copy_one own dir x s t n plain held h =
      elim (Bool-cases (goes_up (relative (fs.root ++ dir) (fs.root ++ (own ++ (x ∷ [])))))) [
        | inl up ↦
            let run : (copy_file e (own ++ (x ∷ [])) dir >> pure tt) s ≡ (ok tt, t) =
              sym (round (own ++ (x ∷ [])) dir true s up) ∙ h in
            let named = base_last own x in
            let apart = away_from_dir fs.root own dir x plain n up in
            let lands =
              copy_file_Ensures e fs (own ++ (x ∷ [])) dir (content x) s
                (λ q. apart (q ∙ ap (λ z. dir ++ (z ∷ [])) named)) held in
            (Ensures-bind (copy_file e (own ++ (x ∷ [])) dir) (λ m. pure tt)
                λ m u hm. record {
                  at = λ a v hv. written dir x s v λ q.
                      ap (λ w. fs.read w q) (sym (pure_inversion tt a u v hv).1)
                      ∙ (lands.at m u hm q
                          ∙ ap
                              (λ z.
                                if same_path (dir ++ (z ∷ [])) q
                                then some (content x)
                                else fs.read s q)
                              named);
                }).at
              tt t run
        | inr down ↦
            let still : s ≡ t =
              ap (λ (r : Outcome (Unit {0}) × e.World). r.1)
                (sym (round (own ++ (x ∷ [])) dir false s down) ∙ h) in
            let there = in_same_dir fs.root own dir x n down in
            (
              (λ d y k. subst (λ w. Holds w d y) still k),
              subst (λ w. Holds w dir x) still (subst (λ d. Holds s d x) there held),
            )
      ]

  -- The file stands in the directory with its content.
  abbrev pub Copied : e.World → FilePath → FilePath → Type 0
  Copied t dir file = Holds t dir (base file)

  pub copy_source :
      (dir file : FilePath) (s t : e.World)
      → IsSource (length dir) s file
      → copy_unless_there e file dir s ≡ (ok tt, t)
      → Kept s t × Copied t dir file
  copy_source dir file s t f h =
      let r =
        copy_one f.dir dir f.name s t f.deep f.plain f.held
          (ap (λ p. copy_unless_there e p dir s) (sym f.is) ∙ h) in
      let named : base file ≡ f.name = ap base f.is ∙ base_last f.dir f.name in
      (r.0, subst (λ x. Holds t dir x) (sym named) r.1)
