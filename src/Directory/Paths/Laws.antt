-- ===== src/Directory/Paths/Laws.antt =====
-- Paths written from names, and what lookup_path of src/module_a/metadata_manager.c finds for them.
use mathlib.Core.Path.{subst}
use smartbackup_fs.Base.{
  ℕ, ◌≡◌, ◌≢◌, refl, ap, ◌∙◌, ◌==◌, false, Option, none, some, List, [], ◌∷◌, ◌++◌, map, append-nil,
  Option-cases, inl, inr,
}
use smartbackup_fs.Lru.{LruCache}
use smartbackup_fs.Version.Types.{VersionChain, FileMeta}
use smartbackup_fs.Version.Query.{Clib}
use smartbackup_fs.Directory.{find_entry}
use smartbackup_fs.Directory.Paths.{
  slash, at_sign, Namespace, Target, push_token, first_token, tokens, split_version, target,
  last_entry, next_dir, walk, from_root, find_target, meta_of, lookup_path,
}

-- a component of a path: a name, and the version that follows it
pub record Component : Type 0 where
  pub name : List ℕ
  pub version : Option (List ℕ)

unfoldable pub Lacks : ℕ → List ℕ → Type 0
Lacks c [] = Unit
Lacks c (x ∷ xs) = ((x == c) ≡ false) × Lacks c xs

unfoldable pub LacksIn : ℕ → Option (List ℕ) → Type 0
LacksIn c none = Unit
LacksIn c (some xs) = Lacks c xs

-- The name is not empty and has neither separator; the version has no slash.
pub record IsComponent (c : Component) : Type 0 where
  pub named : c.name ≢ []
  pub whole : Lacks slash c.name
  pub plain : Lacks at_sign c.name
  pub single : LacksIn slash c.version

unfoldable pub AreComponents : List Component → Type 0
AreComponents [] = Unit
AreComponents (c ∷ cs) = IsComponent c × AreComponents cs

-- the component as it is written
unfoldable pub text : Component → List ℕ
text c = elim c.version [ none ↦ c.name | some ver ↦ c.name ++ (at_sign ∷ ver) ]

unfoldable pub path_of : List Component → List ℕ
path_of [] = []
path_of (c ∷ cs) = slash ∷ (text c ++ path_of cs)

-- the inode that names lead to, and the last of its versions
unfoldable pub follow : Namespace → ℕ → Option (List ℕ) → List Component → Option Target
follow fs ino ver [] = some (target ino ver)
follow fs ino ver (c ∷ cs) = elim (fs.directory ino) [
  | none ↦ none
  | some dir ↦ elim (find_entry c.name dir.entries) [
    | none ↦ none
    | some e ↦ follow fs e.ino c.version cs
  ]
]

Lacks-append : (c : ℕ) (xs ys : List ℕ) → Lacks c xs → Lacks c ys → Lacks c (xs ++ ys)
unfolding Lacks
Lacks-append c [] ys h k = k
Lacks-append c (x ∷ xs) ys h k = (h.0, Lacks-append c xs ys h.1 k)

text-Lacks : (c : Component) → IsComponent c → Lacks slash (text c)
unfolding text LacksIn Lacks
text-Lacks c v = elim (Option-cases c.version) [
  | inl e ↦ rw (e, text) v.whole
  | inr (ver, e) ↦
      let h : Lacks slash ver = subst (λ o. LacksIn slash o) e v.single in
      rw (e, text) (Lacks-append slash c.name (at_sign ∷ ver) v.whole (refl, h))
]

-- A token ends at the first slash.
first_token-append :
    (t rest : List ℕ) → Lacks slash t → first_token (t ++ (slash ∷ rest)) ≡ (t, tokens rest)
unfolding first_token Lacks tokens
first_token-append [] rest h = refl
first_token-append (x ∷ t) rest h = rw (first_token-append t rest h.1, h.0) refl

first_token-all : (t : List ℕ) → Lacks slash t → first_token t ≡ (t, [])
unfolding first_token Lacks
first_token-all [] h = refl
first_token-all (x ∷ t) h = rw (first_token-all t h.1, h.0) refl

split-plain : (t : List ℕ) → Lacks at_sign t → split_version t ≡ (t, none)
unfolding split_version Lacks
split-plain [] h = refl
split-plain (x ∷ t) h = rw (split-plain t h.1, h.0) refl

split-append :
    (t ver : List ℕ) → Lacks at_sign t → split_version (t ++ (at_sign ∷ ver)) ≡ (t, some ver)
unfolding split_version Lacks
split-append [] ver h = refl
split-append (x ∷ t) ver h = rw (split-append t ver h.1, h.0) refl

split-text : (c : Component) → IsComponent c → split_version (text c) ≡ (c.name, c.version)
unfolding text
split-text c v = elim (Option-cases c.version) [
  | inl e ↦ rw (e, text) (split-plain c.name v.plain)
  | inr (ver, e) ↦ rw (e, text) (split-append c.name ver v.plain)
]

push-token : (t : List ℕ) (ts : List (List ℕ)) → t ≢ [] → push_token t ts ≡ t ∷ ts
push-token [] ts ne = absurd (ne refl)
push-token (x ∷ xs) ts ne = refl

append-filled : (xs ys : List ℕ) → xs ≢ [] → (xs ++ ys) ≢ []
append-filled [] ys ne = absurd (ne refl)
append-filled (x ∷ xs) ys ne = λ e. absurd (cc)

text-filled : (c : Component) → IsComponent c → text c ≢ []
unfolding text
text-filled c v = elim (Option-cases c.version) [
  | inl e ↦ rw (e, text) v.named
  | inr (ver, e) ↦ rw (e, text) (append-filled c.name (at_sign ∷ ver) v.named)
]

-- The tokens of a path are its components.
tokens-path_of :
    (c : Component) (cs : List Component)
    → IsComponent c
    → AreComponents cs
    → tokens (text c ++ path_of cs) ≡ text c ∷ map text cs
unfolding tokens path_of AreComponents
tokens-path_of c [] v vs =
    let alone : tokens (text c) ≡ push_token (text c) [] =
      rw (first_token-all (text c) (text-Lacks c v)) refl in
    ap tokens (append-nil (text c)) ∙ alone ∙ push-token (text c) [] (text-filled c v)
tokens-path_of c (d ∷ ds) v vs =
    let rest = text d ++ path_of ds in
    let ih = tokens-path_of d ds vs.0 vs.1 in
    let cut : tokens (text c ++ (slash ∷ rest)) ≡ push_token (text c) (tokens rest) =
      rw (first_token-append (text c) rest (text-Lacks c v)) refl in
    cut ∙ push-token (text c) (tokens rest) (text-filled c v) ∙ ap (λ ts. text c ∷ ts) ih

-- The loop follows the names.
walk-follow :
    (fs : Namespace) (ino : ℕ) (ver : Option (List ℕ)) (c : Component) (cs : List Component)
    → IsComponent c
    → AreComponents cs
    → walk fs (fs.directory ino) (text c ∷ map text cs) ≡ follow fs ino ver (c ∷ cs)
unfolding walk follow AreComponents
walk-follow fs ino ver c [] v vs = elim (Option-cases (fs.directory ino)) [
  | inl e ↦ rw (e, walk, follow) refl
  | inr (dir, e) ↦
      let token = ap (λ p. last_entry p.1 (find_entry p.0 dir.entries)) (split-text c v) in
      let found = find_entry c.name dir.entries in
      elim (Option-cases found) [
        | inl none_yet ↦ rw (e, walk, follow) (token ∙ rw (none_yet) refl)
        | inr (x, here) ↦ rw (e, walk, follow) (token ∙ rw (here) refl)
      ]
]
walk-follow fs ino ver c (d ∷ ds) v vs = elim (Option-cases (fs.directory ino)) [
  | inl e ↦ rw (e, walk, follow) refl
  | inr (dir, e) ↦
      let rest = text d ∷ map text ds in
      let token =
        ap (λ p. walk fs (next_dir fs (find_entry p.0 dir.entries)) rest) (split-text c v) in
      elim (Option-cases (find_entry c.name dir.entries)) [
        | inl none_yet ↦ rw (e, walk, follow) (token ∙ rw (none_yet) refl)
        | inr (x, here) ↦
            let ih = walk-follow fs x.ino c.version d ds vs.0 vs.1 in
            rw (e, walk, follow) (token ∙ rw (here) ih)
      ]
]

from_root-walk :
    (fs : Namespace) (path : List ℕ)
    → path ≢ []
    → from_root fs path ≡ walk fs (fs.directory fs.root) (tokens path)
from_root-walk fs [] ne = absurd (ne refl)
from_root-walk fs (c ∷ cs) ne = refl

find_target-path_of :
    (fs : Namespace) (c : Component) (cs : List Component)
    → IsComponent c
    → AreComponents cs
    → find_target fs (path_of (c ∷ cs)) ≡ follow fs fs.root none (c ∷ cs)
unfolding find_target path_of
find_target-path_of fs c cs v vs =
    from_root-walk fs (text c ++ path_of cs) (append-filled (text c) (path_of cs) (text-filled c v))
    ∙ ap (walk fs (fs.directory fs.root)) (tokens-path_of c cs v vs)
    ∙ walk-follow fs fs.root none c cs v vs

-- A path of components, each a name without separators and perhaps a version after an `@`, is looked up as the
-- names say: from the root, each in the current directory that the one before it leads to. The result is
-- nothing if a name is not there or what is entered is not a directory, and else the last inode's metadata, or,
-- if the last component has a version other than "versions", what the version manager has for it. So the
-- versions of all other components make no difference.
pub lookup_path-path_of :
    (lib : Clib) (now stamp : ℕ) (metas : ℕ → FileMeta) (chains : ℕ → Option VersionChain)
    (cache : Option (LruCache FileMeta)) (fs : Namespace) (c : Component) (cs : List Component)
    → IsComponent c
    → AreComponents cs
    → lookup_path lib now stamp metas chains cache fs (path_of (c ∷ cs))
      ≡ meta_of lib now stamp metas chains cache (follow fs fs.root none (c ∷ cs))
unfolding lookup_path
lookup_path-path_of lib now stamp metas chains cache fs c cs v vs =
    ap (meta_of lib now stamp metas chains cache) (find_target-path_of fs c cs v vs)
