-- ===== src/Store/Repositories.antt =====
-- `upsertRepository` of internal/store/store.go.
use mathlib.Core.Path.{subst}
use traicr.Prelude.{
  ℕ, ◌+◌, ◌≡◌, refl, ap, ◌∙◌, inl, inr, Bool, false, ◌&&◌, Option, none, some, List, [], ◌∷◌, ◌++◌,
  arith, ◌==◌, if◌then◌else◌, Bool-cases, Option-cases, Text, codes, text_eq, text_eq_refl, ok,
  ◌>>=◌,
}
use traicr.Domain.{Repository, is_empty_repository}
use traicr.Store.Table.{find, exists, max_of, Unique, cons, exists-find}
use traicr.Store.Db.{Db, RepositoryRow, RepositoryPath, Sql, or_no_rows}

-- `identity`: the remote, or the path on one machine
unfoldable pub repository_identity : Text → Repository → Text
repository_identity machine r =
    if text_eq r.remote [] then codes "path:" ++ (machine ++ (b':' ∷ r.root)) else r.remote

abbrev pub has_identity : Text → RepositoryRow → Bool
has_identity identity row = text_eq row.identity identity

unfoldable pub ensure_repository : Text → Repository → List RepositoryRow → List RepositoryRow
ensure_repository identity r rows = elim (find (has_identity identity) rows) [
  | none ↦
      (record {
        id = max_of (λ x. x.id) rows + 1;
        identity = identity;
        remote = r.remote;
        root = r.root;
      })
      ∷ rows
  | some _ ↦ rows
]

unfoldable pub ensure_path : ℕ → Text → List RepositoryPath → List RepositoryPath
ensure_path id path rows =
    if exists (λ x. x.repository_id == id && text_eq x.path path) rows
    then rows
    else (record { repository_id = id; path = path }) ∷ rows

unfoldable pub upsert_repository : Text → Repository → Db → Sql (Option ℕ × Db)
upsert_repository machine r db = if is_empty_repository r then ok (none, db) else (do
  let rows = ensure_repository (repository_identity machine r) r db.repositories
  found ← or_no_rows (find (has_identity (repository_identity machine r)) rows)
  let paths =
      if text_eq r.root []
      then db.repository_paths
      else ensure_path found.id r.root db.repository_paths
  ok (some found.id, record db { repositories = rows; repository_paths = paths }))

-- `UNIQUE` on `identity`.
abbrev same_identity : RepositoryRow → RepositoryRow → Bool
same_identity x y = text_eq y.identity x.identity

abbrev new_repository : Text → Repository → List RepositoryRow → RepositoryRow
new_repository identity r rows = record {
  id = max_of (λ x. x.id) rows + 1;
  identity = identity;
  remote = r.remote;
  root = r.root;
}

ensure_repository_new :
    (identity : Text) (r : Repository) (rows : List RepositoryRow)
    → find (has_identity identity) rows ≡ none
    → ensure_repository identity r rows ≡ new_repository identity r rows ∷ rows
unfolding ensure_repository
ensure_repository_new identity r rows e = rw (e, ensure_repository)

ensure_repository_old :
    (identity : Text) (r : Repository) (rows : List RepositoryRow) {x : RepositoryRow}
    → find (has_identity identity) rows ≡ some x
    → ensure_repository identity r rows ≡ rows
unfolding ensure_repository
ensure_repository_old identity r rows e = rw (e, ensure_repository)

find_new :
    (identity : Text) (r : Repository) (rows : List RepositoryRow)
    → find (has_identity identity) (new_repository identity r rows ∷ rows)
      ≡ some (new_repository identity r rows)
unfolding find
find_new identity r rows = rw (text_eq_refl identity)

ensure_repository-find :
    (identity : Text) (r : Repository) (rows : List RepositoryRow)
    → (row : RepositoryRow) × (find (has_identity identity) (ensure_repository identity r rows)
        ≡ some row)
ensure_repository-find identity r rows = elim (Option-cases (find (has_identity identity) rows)) [
  | inl e ↦ (
    new_repository identity r rows,
    rw (ensure_repository_new identity r rows e) (find_new identity r rows),
  )
  | inr (x, e) ↦ (x, rw (ensure_repository_old identity r rows e) e)
]

ensure_repository-Unique :
    (identity : Text) (r : Repository) (rows : List RepositoryRow)
    → Unique same_identity rows
    → Unique same_identity (ensure_repository identity r rows)
ensure_repository-Unique identity r rows u =
    elim (Option-cases (find (has_identity identity) rows)) [
      | inl e ↦
          rw (ensure_repository_new identity r rows e)
            (cons (exists-find (has_identity identity) rows e) u)
      | inr (x, e) ↦ rw (ensure_repository_old identity r rows e) u
    ]

-- A second upsert of a repository with that identity finds the row and adds none.
ensure_repository_again :
    (identity : Text) (r s : Repository) (rows : List RepositoryRow)
    → ensure_repository identity s (ensure_repository identity r rows)
      ≡ ensure_repository identity r rows
ensure_repository_again identity r s rows =
    let (x, e) = ensure_repository-find identity r rows in
    ensure_repository_old identity s (ensure_repository identity r rows) e

ensure_path_again :
    (id : ℕ) (path : Text) (rows : List RepositoryPath)
    → ensure_path id path (ensure_path id path rows) ≡ ensure_path id path rows
unfolding ensure_path exists
ensure_path_again id path rows = ground (arith, text_eq_refl path)

-- The upsert never fails: a repository that is not empty has a row afterwards.
upsert_repository-found :
    (machine : Text) (r : Repository) (db : Db)
    → is_empty_repository r ≡ false
    → (x : RepositoryRow) × (find
          (has_identity (repository_identity machine r))
          (ensure_repository (repository_identity machine r) r db.repositories)
        ≡ some x)
      × (upsert_repository machine r db
          ≡ ok (
            some x.id,
            record db {
              repositories = ensure_repository (repository_identity machine r) r db.repositories;
              repository_paths =
                  if text_eq r.root []
                  then db.repository_paths
                  else ensure_path x.id r.root db.repository_paths;
            },
          ))
unfolding upsert_repository
upsert_repository-found machine r db h =
    let (x, e) = ensure_repository-find (repository_identity machine r) r db.repositories in
    (x, e, rw (h, e))

abbrev paths_with : ℕ → Text → List RepositoryPath → List RepositoryPath
paths_with id root paths = if text_eq root [] then paths else ensure_path id root paths

paths_with_again :
    (id : ℕ) (root : Text) (paths : List RepositoryPath)
    → paths_with id root (paths_with id root paths) ≡ paths_with id root paths
paths_with_again id root paths = elim (Bool-cases (text_eq root [])) [
  | inl t ↦ rw t
  | inr f ↦ rw f (ensure_path_again id root paths)
]

upsert_repository-known :
    (machine : Text) (r : Repository) (db : Db) {x : RepositoryRow}
    → is_empty_repository r ≡ false
    → find (has_identity (repository_identity machine r)) db.repositories ≡ some x
    → upsert_repository machine r db
      ≡ ok (
        some x.id,
        record db {
          repositories = db.repositories;
          repository_paths = paths_with x.id r.root db.repository_paths;
        },
      )
unfolding upsert_repository
upsert_repository-known machine r db h e =
    rw (h, ensure_repository_old (repository_identity machine r) r db.repositories e, e)

-- Storing a repository once more, in whatever state the first upsert left, gives the same key and
-- changes nothing; the first upsert of every repository succeeds.
pub upsert_repository_again :
    (machine : Text) (r : Repository) (db : Db)
    → (id : Option ℕ) × (db' : Db) × (upsert_repository machine r db ≡ ok (id, db'))
      × (upsert_repository machine r db' ≡ ok (id, db'))
upsert_repository_again machine r db = elim (Bool-cases (is_empty_repository r)) [
  | inl none_given ↦ (
    none,
    db,
    unfold upsert_repository in rw none_given refl,
    unfold upsert_repository in rw none_given refl,
  )
  | inr given ↦
      let (x, e, first) = upsert_repository-found machine r db given in
      let rows = ensure_repository (repository_identity machine r) r db.repositories in
      let db' : Db = record db {
        repositories = rows;
        repository_paths = paths_with x.id r.root db.repository_paths;
      } in
      (
        some x.id,
        db',
        first,
        upsert_repository-known machine r db' given e
            ∙ ap (λ (p : List RepositoryPath). ok (some x.id, record db' { repository_paths = p }))
                (paths_with_again x.id r.root db.repository_paths),
      )
]

-- One identity, one key: repositories with the same identity, from whatever machine and root, get
-- the same key one after the other.
upsert_repository_same :
    (m n : Text) (r s : Repository) (db : Db)
    → is_empty_repository r ≡ false
    → is_empty_repository s ≡ false
    → repository_identity m r ≡ repository_identity n s
    → (id : ℕ) × (first : Db) × (second : Db) × (upsert_repository m r db ≡ ok (some id, first))
      × (upsert_repository n s first ≡ ok (some id, second))
      × (second.repositories ≡ first.repositories)
upsert_repository_same m n r s db hr hs same =
    let (x, e, p) = upsert_repository-found m r db hr in
    let rows = ensure_repository (repository_identity m r) r db.repositories in
    let first : Db = record db {
      repositories = rows;
      repository_paths = paths_with x.id r.root db.repository_paths;
    } in
    let known = subst (λ i. find (has_identity i) rows ≡ some x) same e in
    (
      x.id,
      first,
      record first { repository_paths = paths_with x.id s.root first.repository_paths },
      p,
      upsert_repository-known n s first hs known,
      refl,
    )
