-- ===== src/Testnets/MultiNode/Gathering.antt =====
-- What the copying of the genesis transactions leaves: each node has all of them.
use veranatest.Sdk.Nodes.{FilePath, IsFileSystem, NodeEnv}
use veranatest.Testnets.MultiNode.Flags.{InitArgs}
use veranatest.Testnets.MultiNode.Nodes.{gentxs_dir, node_dir, node_dir_name}
use veranatest.Testnets.MultiNode.Copies.{
  Copied, Holds, IsSource, Kept, copy_source, still-IsSource,
}
use veranatest.Testnets.MultiNode.Files.{base, copy_all, copy_gentxs, copy_unless_there}
use veranatest.Prelude.{
  All, All-map, Bytes, Ensures, Ensures-bind, List, Listed, Listed-All, [], arith, ascii, inl, inr,
  le_cases, length, length-append, ok, pure_inversion, subst, suc, zero, ℕ, ◌+◌, ◌<◌, ◌∷◌, ◌≡◌, ◌≤◌,
}

module _ (e : NodeEnv) (fs : IsFileSystem e) (content : Bytes → Bytes) where
  still-All :
      (depth : ℕ) (s t : e.World) (files : List FilePath)
      → Kept e fs content s t
      → All (IsSource e fs content depth s) files
      → All (IsSource e fs content depth t) files
  still-All depth s t [] k a = tt
  still-All depth s t (file ∷ files) k (f, a) =
      (still-IsSource e fs content depth s t file k f, still-All depth s t files k a)

  -- The inner loop keeps what the files hold and leaves every file in the directory.
  copy_all_Ensures :
      (dir : FilePath) (files : List FilePath) (s : e.World)
      → All (IsSource e fs content (length dir) s) files
      → Ensures
          (copy_all e files dir)
          s
          λ u t. Kept e fs content s t × All (Copied e fs content t dir) files
  unfolding copy_all
  copy_all_Ensures dir [] s a = record {
    at = λ u t h.
        ((λ d x k. subst (λ w. Holds e fs content w d x) (pure_inversion tt u s t h).1 k), tt);
  }
  copy_all_Ensures dir (file ∷ files) s (f, a) =
      Ensures-bind (copy_unless_there e file dir) (λ u. copy_all e files dir)
        λ u t h.
          let one = copy_source e fs content dir file s t f h in
          record {
            at = λ v w r.
                let rest =
                  (copy_all_Ensures dir files t (still-All (length dir) s t files one.0 a)).at v w
                    r in
                let here : All (Copied e fs content w dir) (file ∷ files) =
                  (rest.0 dir (base file) one.1, rest.1) in
                ((λ d x k. rest.0 d x (one.0 d x k)), here);
          }

  module _ (args : InitArgs e.Coin) where
    -- The elements of the path of a directory of genesis transactions.
    abbrev pub depth : ℕ
    depth = length args.output_dir + 3

    length-gentxs_dir : (i : ℕ) → depth ≡ length (gentxs_dir e args i)
    length-gentxs_dir i = omega (
      arith,
      length-append args.output_dir (node_dir_name e args i ∷ []),
      length-append (node_dir e args i) (ascii "config" ∷ ascii "gentx" ∷ []),
    )

    -- The outer loop leaves every file in the directory of every node that it reaches.
    copy_gentxs_Ensures :
        (files : List FilePath) (n i : ℕ) (s : e.World)
        → All (IsSource e fs content depth s) files
        → Ensures (copy_gentxs e args files n i) s λ u t.
          Kept e fs content s t
          × ((j : ℕ) → i ≤ j → j < i + n → All (Copied e fs content t (gentxs_dir e args j)) files)
    unfolding copy_gentxs
    copy_gentxs_Ensures files zero i s a = record {
      at = λ u t h. (
        (λ d x k. subst (λ w. Holds e fs content w d x) (pure_inversion tt u s t h).1 k),
        (λ j low high. absurd (omega arith)),
      );
    }
    copy_gentxs_Ensures files (suc n) i s a =
        Ensures-bind (copy_all e files (gentxs_dir e args i))
          (λ u. copy_gentxs e args files n (i + 1))
          λ u t h.
            let one =
              (copy_all_Ensures (gentxs_dir e args i) files s
                  (subst (λ d. All (IsSource e fs content d s) files) (length-gentxs_dir i) a)).at
                u t h in
            record {
              at = λ v w r.
                  let rest =
                    (copy_gentxs_Ensures files n (i + 1) t (still-All depth s t files one.0 a)).at v
                      w r in
                  let first : All (Copied e fs content w (gentxs_dir e args i)) files =
                    All-map (Copied e fs content t (gentxs_dir e args i))
                      (Copied e fs content w (gentxs_dir e args i)) files
                      (λ file. rest.0 (gentxs_dir e args i) (base file)) one.1 in
                  (
                    (λ d x k. rest.0 d x (one.0 d x k)),
                    (λ j low high. elim (le_cases i j low) [
                      | inl q ↦
                          subst (λ k. All (Copied e fs content w (gentxs_dir e args k)) files) q
                            first
                      | inr q ↦ rest.1 j q (omega arith)
                    ]),
                  );
            }

    -- Where the loops over the nodes and the files end well, and every file to copy stands in a
    -- directory as deep as those of the genesis transactions, every node has every file, with its
    -- content.
    pub copy_gentxs_ok :
        (files : List FilePath) (n : ℕ) (s t : e.World)
        → All (IsSource e fs content depth s) files
        → copy_gentxs e args files n 0 s ≡ (ok tt, t)
        → (j : ℕ) → j < n
        → (file : FilePath) → Listed file files
        → Holds e fs content t (gentxs_dir e args j) (base file)
    copy_gentxs_ok files n s t a h j high =
        Listed-All (Copied e fs content t (gentxs_dir e args j)) files
          (((copy_gentxs_Ensures files n 0 s a).at tt t h).1 j (omega arith) (omega arith))
