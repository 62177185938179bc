-- ===== src/Archive/Describe/Hashed.antt =====
-- What `Describe` puts into a descriptor is what `Validate` asks of the files of a trace.
use mathlib.Core.List.{append_assoc}
use traicr.Prelude.{
  append_nil, All-members, ℕ, ◌+◌, ◌≡◌, refl, sym, ap, ◌∙◌, ◌≢◌, inl, inr, true, not, ◌||◌, Option,
  none, some, List, [], ◌∷◌, ◌++◌, arith, ◌==◌, ==_iff, Bool-cases, length, take, length-take,
  take_whole, Member, All, All-append, Text, codes, text_eq_refl, has_prefix, ok, ok-injective,
  bind-eq-ok, refuse_if, refuse_if-eq-ok,
}
use mathlib.Core.Path.{subst}
use traicr.Domain.{File, Descriptor, pos}
use traicr.Archive.Paths.{safe_path}
use traicr.Archive.Digest.{revision_digest}
use traicr.Archive.Validate.{bytes, check_content}
use traicr.Archive.Describe.{
  Visit, Input, walk_failed, directory, not_regular, regular, hash_file, visit, walk, describe,
  no_files, outside_source,
}

-- The paths of the regular files that the walk visits, in order.
abbrev pub visited : List Visit → List Text
visited [] = []
visited (regular path size content ∷ visits) = path ∷ visited visits
visited (walk_failed ∷ visits) = visited visits
visited (directory ∷ visits) = visited visits
visited (not_regular ∷ visits) = visited visits

abbrev pub file_paths : List File → List Text
file_paths [] = []
file_paths (f ∷ files) = f.path ∷ file_paths files

-- The file stands under source/, and bytes that the walk met pass the comparison that `Validate` makes.
pub record IsHashed (hash : Text → Text) (visits : List Visit) (f : File) : Type 0 where
  pub safe : safe_path f.path 32 ≡ true
  pub source : has_prefix f.path (codes "source/") ≡ true
  pub content : Text
  pub met : Member (regular f.path (length content) (some content)) visits
  pub size : f.size ≡ pos (length content)
  pub digest : check_content hash (length content) f.sha256 (bytes content) ≡ ok tt

whole_length :
    (size : ℕ) (content : Text) → length (take (size + 1) content) ≡ size → length content ≡ size
whole_length size content h = omega (arith, length-take (size + 1) content)

check_own :
    (hash : Text → Text) (c : Text) → check_content hash (length c) (hash c) (bytes c) ≡ ok tt
unfolding check_content
check_own hash c =
    let copied : take (length c + 1) c ≡ c = take_whole (length c + 1) c (omega arith) in
    let same : (length c == length c) ≡ true = (==_iff (length c) (length c)).1 refl in
    rw (copied, same, text_eq_refl (hash c)) refl

hash_file-IsHashed :
    (hash : Text → Text) (visits : List Visit) (path : Text) (size : ℕ) (content : Option Text)
    (f : File)
    → Member (regular path size content) visits
    → safe_path path 32 ≡ true
    → has_prefix path (codes "source/") ≡ true
    → hash_file hash path size content ≡ ok f
    → IsHashed hash visits f × (f.path ≡ path)
unfolding hash_file
hash_file-IsHashed hash visits path size none f at safe source h = cc
hash_file-IsHashed hash visits path size (some content) f at safe source h =
    elim (Bool-cases (length (take (size + 1) content) == size)) [
      | inr other ↦ absurd (ground arith)
      | inl same ↦
          let short : length (take (size + 1) content) ≡ size = ground arith in
          let whole = whole_length size content short in
          let copied : take (length content + 1) content ≡ content =
            take_whole (length content + 1) content (omega arith) in
          let result = ok-injective (rw same at h) in
          let copied' : take (size + 1) content ≡ content =
            ap (λ n. take (n + 1) content) (sym whole) ∙ copied in
          let at' = subst (λ n. Member (regular path n (some content)) visits) (sym whole) at in
          subst (λ x. IsHashed hash visits x × (x.path ≡ path)) result
            (
              record {
                safe = safe;
                source = source;
                content = content;
                met = at';
                size = ap (λ x. pos (length x)) copied';
                digest =
                    subst
                      (λ x. check_content hash (length content) (hash x) (bytes content) ≡ ok tt)
                      (sym copied') (check_own hash content);
              },
              refl,
            )
    ]

visit_lem :
    (hash : Text → Text) (visits : List Visit) (files files' : List File) (v : Visit)
    → Member v visits
    → visit hash files v ≡ ok files'
    → (new : List File) × (files' ≡ files ++ new)
      × All (IsHashed hash visits) new
      × (file_paths new ≡ visited (v ∷ []))
unfolding visit
visit_lem hash visits files files' walk_failed at h = cc
visit_lem hash visits files files' directory at h =
    ([], sym (ok-injective h) ∙ sym (append_nil files), tt, refl)
visit_lem hash visits files files' not_regular at h = cc
visit_lem hash visits files files' (regular path size content) at h =
    let (_, placed, h1) =
      bind-eq-ok
        (refuse_if (not (safe_path path 32) || not (has_prefix path (codes "source/")))
          outside_source)
        _ h in
    let (f, hashed, last) = bind-eq-ok (hash_file hash path size content) _ h1 in
    let placed' = refuse_if-eq-ok _ outside_source placed in
    let safe : safe_path path 32 ≡ true = ground arith in
    let source : has_prefix path (codes "source/") ≡ true = ground arith in
    let (good, named) = hash_file-IsHashed hash visits path size content f at safe source hashed in
    (f ∷ [], sym (ok-injective last), (good, tt), ap (λ x. x ∷ []) named)

file_paths_append : (a b : List File) → file_paths (a ++ b) ≡ file_paths a ++ file_paths b
file_paths_append [] b = refl
file_paths_append (x ∷ a) b = ap (λ y. x.path ∷ y) (file_paths_append a b)

visited_cons :
    (v : Visit) (visits : List Visit) → visited (v ∷ []) ++ visited visits ≡ visited (v ∷ visits)
visited_cons walk_failed visits = refl
visited_cons directory visits = refl
visited_cons not_regular visits = refl
visited_cons (regular path size content) visits = refl

walk_lem :
    (hash : Text → Text) (all visits : List Visit) (files files' : List File)
    → All (λ v. Member v all) visits
    → All (IsHashed hash all) files
    → walk hash visits files ≡ ok files'
    → All (IsHashed hash all) files' × (file_paths files' ≡ file_paths files ++ visited visits)
unfolding walk
walk_lem hash all [] files files' a good h =
    let same = ok-injective h in
    subst (λ x. All (IsHashed hash all) x × (file_paths x ≡ file_paths files ++ [])) same
      (good, sym (append_nil (file_paths files)))
walk_lem hash all (v ∷ visits) files files' a good h =
    let (next, visited_one, rest) = bind-eq-ok (visit hash files v) _ h in
    let (new, grown, good', paths) = visit_lem hash all files next v a.0 visited_one in
    let (done, names) =
      walk_lem hash all visits next files' a.1
        (subst (All (IsHashed hash all)) (sym grown) (All-append _ files new good good')) rest in
    let first : file_paths next ≡ file_paths files ++ visited (v ∷ []) =
      ap file_paths grown ∙ file_paths_append files new ∙ ap (λ x. file_paths files ++ x) paths in
    (
      done,
      names
          ∙ ap (λ x. x ++ visited visits) first
          ∙ append_assoc (file_paths files) (visited (v ∷ [])) (visited visits)
          ∙ ap (λ x. file_paths files ++ x) (visited_cons v visits),
    )

-- A trace that is described keeps what the adapter said of it; its files are the regular files that the walk met, in order and at
-- least one, each under source/ with the size and the digest with which `Validate` accepts the bytes that were read; and its
-- revision digest is that of its files.
pub describe-IsHashed :
    (hash : Text → Text) (input : Input) (d : Descriptor)
    → describe hash input ≡ ok d
    → All (IsHashed hash input.visits) d.files
      × (file_paths d.files ≡ visited input.visits)
      × (d.files ≢ [])
      × (d.revision_digest ≡ revision_digest hash d.files)
      × (record d { files = []; revision_digest = [] }
          ≡ record input.descriptor { files = []; revision_digest = [] })
unfolding describe
describe-IsHashed hash input d h =
    let (files, walked, h1) = bind-eq-ok (walk hash input.visits []) _ h in
    let (_, some_files, last) = bind-eq-ok (refuse_if (length files == 0) no_files) _ h1 in
    let (good, paths) =
      walk_lem hash input.visits input.visits [] files (All-members _ input.visits (λ v m. m)) tt
        walked in
    let full : files ≢ [] =
      λ e. ground (arith, ap length e, refuse_if-eq-ok _ no_files some_files) in
    subst
      (λ x.
        All (IsHashed hash input.visits) x.files
        × (file_paths x.files ≡ visited input.visits)
        × (x.files ≢ [])
        × (x.revision_digest ≡ revision_digest hash x.files)
        × (record x { files = []; revision_digest = [] }
            ≡ record input.descriptor { files = []; revision_digest = [] }))
      (ok-injective last) (good, paths, full, refl, refl)
