-- ===== src/Testnets/MultiNode/Files.antt =====
-- The genesis transactions that `initTestnetFiles` copies to every node.
use veranatest.Testnets.MultiNode.Flags.{InitArgs}
use veranatest.Testnets.MultiNode.Nodes.{gentxs_dir}
use veranatest.Prelude.{
  Bool, Bytes, Exec, List, Outcome, [], ascii, bytes_eq, err, false, has_prefix, if◌then◌else◌, not,
  ok, panicked, pure, suc, zero, ℕ, ◌++◌, ◌+◌, ◌>>=◌, ◌>>◌, ◌∷◌,
}
use veranatest.Sdk.Nodes.{FilePath, NodeEnv}

-- `filepath.Base`
unfoldable pub base : FilePath → Bytes
base [] = ascii "."
base (x ∷ []) = x
base (x ∷ y ∷ rest) = base (y ∷ rest)

-- `filepath.Rel` of absolute paths: up from the rest of the one, and down the rest of the other.
unfoldable pub up_from : FilePath → FilePath → FilePath
up_from [] target = target
up_from (x ∷ rest) target = ascii ".." ∷ up_from rest target

unfoldable pub relative : FilePath → FilePath → FilePath
unfolding up_from
relative [] target = target
relative (x ∷ rest) [] = up_from (x ∷ rest) []
relative (x ∷ rest) (y ∷ target) =
    let below = relative rest target in
    if bytes_eq x y then below else up_from (x ∷ rest) (y ∷ target)

-- `strings.HasPrefix(path, "..")` of a relative path.
unfoldable pub goes_up : FilePath → Bool
goes_up [] = false
goes_up (x ∷ rest) = has_prefix (ascii "..") x

module _ (e : NodeEnv) where
  -- `isSubDir`; the result of `filepath.Rel` is never absolute.
  unfoldable pub is_sub_dir : FilePath → FilePath → e.World → Outcome Bool
  unfolding relative goes_up
  is_sub_dir src dst_dir w = elim (e.abs src w) [
    | ok abs_src ↦ elim (e.abs dst_dir w) [
      | ok abs_dst_dir ↦ ok (not (goes_up (relative abs_dst_dir abs_src)))
      | err x ↦ err x
      | panicked ↦ panicked
    ]
    | err x ↦ err x
    | panicked ↦ panicked
  ]

  -- `copyFile`; the files are closed at its end.
  unfoldable pub copy_file : FilePath → FilePath → Exec e.World ℕ
  unfolding base
  copy_file src dst_dir = do
    e.open_file src
    e.create (dst_dir ++ (base src ∷ []))
    bytes_copied ← e.copy src (dst_dir ++ (base src ∷ []))
    e.sync (dst_dir ++ (base src ∷ []))
    pure bytes_copied

  -- The body of the inner loop: a file that is in the directory is not copied, nor one for which
  -- that cannot be told.
  unfoldable pub copy_unless_there : FilePath → FilePath → Exec e.World (Unit {0})
  unfolding is_sub_dir copy_file
  copy_unless_there file dir w = elim (is_sub_dir file dir w) [
    | ok inside ↦ if inside then (ok tt, w) else (copy_file file dir >> pure tt) w
    | err x ↦ (ok tt, w)
    | panicked ↦ (panicked, w)
  ]

  unfoldable pub copy_all : List FilePath → FilePath → Exec e.World (Unit {0})
  unfolding copy_unless_there
  copy_all [] dir = pure tt
  copy_all (file ∷ files) dir = copy_unless_there file dir >> copy_all files dir

  -- The outer loop: `n` nodes from `i` on.
  unfoldable pub copy_gentxs : InitArgs e.Coin → List FilePath → ℕ → ℕ → Exec e.World (Unit {0})
  unfolding copy_all
  copy_gentxs args files zero i = pure tt
  copy_gentxs args files (suc n) i =
      copy_all files (gentxs_dir e args i) >> copy_gentxs args files n (i + 1)
