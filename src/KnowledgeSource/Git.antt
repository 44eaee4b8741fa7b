-- ===== src/KnowledgeSource/Git.antt =====
-- internal/controller/gitknowledgesource_git.go: the client of a Git repository, which clones it afresh for
-- every sync. go-git, the file system and the like are parameters.
pub mod Errors
use dot_ai_controller.Prelude.{
  take, ℕ, ◌≡◌, refl, sym, Bool, true, false, Option, none, some, List, [], ◌∷◌, ◌++◌, Text, codes,
  is_empty, text_eq, nat_eq, ◌==◌, ltb, if◌then◌else◌, length, Result, ok, err, ◌>>=◌, wrapped,
  wrap, Option-cases, inl, inr, bind-ok, wrapped-ok, ==-true,
}

abbrev pub default_clone_depth : ℕ
default_clone_depth = 1

abbrev pub incremental_clone_depth : ℕ
incremental_clone_depth = 50

pub record GitClientConfig : Type 0 where
  pub url : Text
  pub branch : Text
  pub depth : ℕ
  pub auth_token : Text
  pub clone_dir : Text
  pub last_synced_commit : Text

-- What go-git has of a file: its size, and its contents.
pub record File : Type 0 where
  pub size : ℕ
  pub contents : Result Text

-- A commit: the names of the files of its tree, whose two errors are the tree's and the iterator's, and a
-- file by its path.
pub record Commit : Type 0 where
  pub tree : Result (Result (List Text))
  pub file : Text → Result File

-- A clone, with hashes as the texts that they print as: HEAD, plumbing.NewHash, a commit by its hash, and the
-- names of the files that the patch from one commit to another touches.
pub record Repository : Type 0 where
  pub head : Result Text
  pub new_hash : Text → Text
  pub commit_object : Text → Result Commit
  pub patch : Text → Text → Result (List Text)

pub record GitClient : Type 0 where
  pub url : Text
  pub branch : Text
  pub depth : ℕ
  pub auth_token : Text
  pub clone_dir : Text
  pub last_synced_commit : Text
  pub repo : Option Repository

-- The depth that is configured, or the one for the kind of sync.
abbrev depth_for : ℕ → Text → ℕ
depth_for depth last_synced_commit =
    if depth == 0
    then (if is_empty last_synced_commit then default_clone_depth else incremental_clone_depth)
    else depth

unfoldable pub new_git_client : GitClientConfig → GitClient
new_git_client cfg = record {
  url = cfg.url;
  branch = if is_empty cfg.branch then codes "main" else cfg.branch;
  depth = depth_for cfg.depth cfg.last_synced_commit;
  auth_token = cfg.auth_token;
  clone_dir = cfg.clone_dir;
  last_synced_commit = cfg.last_synced_commit;
  repo = none;
}

-- The user name and the password.
unfoldable pub get_auth : GitClient → Option (Text × Text)
get_auth g = if is_empty g.auth_token then none else some (codes "x-access-token", g.auth_token)

pub record CloneOptions : Type 0 where
  pub url : Text
  pub auth : Option (Text × Text)
  pub branch : Text
  pub single_branch : Bool
  pub depth : ℕ

-- os.RemoveAll, os.MkdirAll of the parent directory, with `some` error, and git.PlainClone.
pub record GitHost : Type 0 where
  pub remove_all : Text → Option Text
  pub make_parent : Text → Option Text
  pub plain_clone : Text → CloneOptions → Result Repository

abbrev unless {ℓ} : {A : Type ℓ} → Text → Option Text → Result A → Result A
unless context none r = r
unless context (some e) r = err (wrap context e)

unfoldable pub clone : GitHost → GitClient → Result GitClient
unfolding get_auth
clone host g = unless (codes "failed to clean clone directory") (host.remove_all g.clone_dir) (
    unless (codes "failed to create clone directory parent") (host.make_parent g.clone_dir) (do
      repo ← wrapped (codes "failed to clone repository") (
          host.plain_clone g.clone_dir (record {
            url = g.url;
            auth = get_auth g;
            branch = g.branch;
            single_branch = true;
            depth = g.depth;
          }))
      ok (record g { repo = some repo })))

abbrev options_of : GitClient → CloneOptions
options_of g = record {
  url = g.url;
  auth = get_auth g;
  branch = g.branch;
  single_branch = true;
  depth = g.depth;
}

-- A clone changes nothing of the client but the repository.
pub clone-keeps :
    (host : GitHost) (g g' : GitClient)
    → clone host g ≡ ok g'
    → (r : Repository) × (options : CloneOptions) × (host.plain_clone g.clone_dir options ≡ ok r)
      × (g' ≡ record g { repo = some r })
unfolding clone
clone-keeps host g g' h = elim (Option-cases (host.remove_all g.clone_dir)) [
  | inr e ↦ absurd (cc (rw (e.1, clone) at h))
  | inl e ↦ elim (Option-cases (host.make_parent g.clone_dir)) [
    | inr e' ↦ absurd (cc (rw (e, e'.1, clone) at h))
    | inl e' ↦
        let (r, p, q) =
          bind-ok
            (wrapped (codes "failed to clone repository")
              (host.plain_clone g.clone_dir (options_of g)))
            _ (rw (e, e', clone) at h) in
        (r, options_of g, wrapped-ok (codes "failed to clone repository") _ p, cc)
  ]
]

abbrev repository : Option Repository → Result Repository
repository none = err (codes "repository not initialized, call Clone first")
repository (some r) = ok r

unfoldable pub get_head_commit : GitClient → Result Text
get_head_commit g = do r ← repository g.repo; wrapped (codes "failed to get HEAD") r.head

-- The patch from the last commit, once it is found; none asks for all files.
patch_files : Repository → Text → Text → Result Commit → Option (List Text)
patch_files r last head (err e) = none
patch_files r last head (ok commit) =
    if head == last
    then some []
    else elim (r.patch last head) [ err e ↦ none | ok files ↦ some files ]

changed_in : Repository → Text → Result (Option (List Text))
unfolding patch_files
changed_in r last_synced_commit = do
  head ← wrapped (codes "failed to get HEAD") r.head
  commit ← wrapped (codes "failed to get HEAD commit") (r.commit_object head)
  ok (
      patch_files r (r.new_hash last_synced_commit) head
        (r.commit_object (r.new_hash last_synced_commit)))

-- The files that changed since the last synced commit; `none` when it is not in the history.
unfoldable pub get_changed_files : GitClient → Result (Option (List Text))
unfolding changed_in
get_changed_files g = do
  r ← repository g.repo
  if is_empty g.last_synced_commit then ok none else changed_in r g.last_synced_commit

unfoldable pub get_all_files : GitClient → Result (List Text)
get_all_files g = do
  r ← repository g.repo
  head ← wrapped (codes "failed to get HEAD") r.head
  commit ← wrapped (codes "failed to get HEAD commit") (r.commit_object head)
  files ← wrapped (codes "failed to get tree") commit.tree
  wrapped (codes "failed to iterate files") files

-- A file at HEAD by its path.
file_at_head : GitClient → Text → Result File
file_at_head g path = do
  r ← repository g.repo
  head ← wrapped (codes "failed to get HEAD") r.head
  commit ← wrapped (codes "failed to get commit") (r.commit_object head)
  wrapped (codes "failed to get file " ++ path) (commit.file path)

unfoldable pub get_file_content : GitClient → Text → Result Text
unfolding file_at_head
get_file_content g path = do
  file ← file_at_head g path
  wrapped (codes "failed to read file " ++ path) file.contents

unfoldable pub get_file_size : GitClient → Text → Result ℕ
unfolding file_at_head
get_file_size g path = do file ← file_at_head g path; ok file.size

-- The client without its clone, and the error of the removal.
unfoldable pub cleanup : GitHost → GitClient → GitClient × Option Text
cleanup host g =
    (record g { repo = none }, if is_empty g.clone_dir then none else host.remove_all g.clone_dir)

-- filepath.Join is a parameter.
unfoldable pub build_clone_dir : (List Text → Text) → Text → Text → Text → Text
build_clone_dir join_path namespace name uid =
    let uid_short = if ltb 8 (length uid) then take 8 uid else uid in
    join_path (
      codes "/tmp"
      ∷ codes "knowledge-sources"
      ∷ (namespace ++ codes "-" ++ name ++ codes "-" ++ uid_short)
      ∷ [])

-- Nothing has changed at the last synced commit.
pub get_changed_files-head :
    (g : GitClient) (r : Repository) (c : Commit)
    → g.repo ≡ some r
    → is_empty g.last_synced_commit ≡ false
    → r.head ≡ ok g.last_synced_commit
    → r.new_hash g.last_synced_commit ≡ g.last_synced_commit
    → r.commit_object g.last_synced_commit ≡ ok c
    → get_changed_files g ≡ ok (some [])
unfolding get_changed_files changed_in patch_files
get_changed_files-head g r c repo n h s f =
    let f' : r.commit_object (r.new_hash g.last_synced_commit) ≡ ok c = rw s f in
    rw
      (
        repo,
        n,
        h,
        f,
        f',
        ==-true g.last_synced_commit (r.new_hash g.last_synced_commit) (sym s),
        get_changed_files,
        changed_in,
        patch_files,
      )
      refl
