-- ===== src/Templating/Fetch.antt =====
-- What a PDF template can fetch while it is rendered.
use vibe_printer.Prelude.{
  ◌≡◌, ◌≢◌, refl, ap, sym, ◌∙◌, inl, inr, true, ◌||◌, String, List, [], ◌∷◌, ◌++◌, eq_iff, arith,
  Bool-cases,
}
use vibe_printer.Prelude.Texts.{Text, codes, text_eq}
use vibe_printer.Templating.{
  Fetched, inline, opened, blocked, path_eq, in_parents, parent, url_fetcher,
}

in_parents-prefix :
    (root target : List String)
    → in_parents root target ≡ true
    → (name : String) × (rest : List String) × (target ≡ root ++ (name ∷ rest))
unfolding in_parents
in_parents-prefix [] [] h = cc
in_parents-prefix [] (name ∷ rest) h = (name, rest, refl)
in_parents-prefix (a ∷ root) [] h = cc
in_parents-prefix (a ∷ root) (b ∷ target) h =
    let same : b ≡ a = ground (arith, eq_iff a b) in
    let (name, rest, e) = in_parents-prefix root target (ground arith) in
    (name, rest, rw (same, e) refl)

path_eq_sound : (p q : List String) → path_eq p q ≡ true → p ≡ q
unfolding path_eq
path_eq_sound [] [] h = refl
path_eq_sound [] (b ∷ q) h = cc
path_eq_sound (a ∷ p) [] h = cc
path_eq_sound (a ∷ p) (b ∷ q) h =
    let same : a ≡ b = ground (arith, eq_iff a b) in
    rw (same, path_eq_sound p q (ground arith)) refl

parent-split :
    (target : List String) → target ≢ [] → (name : String) × (target ≡ parent target ++ (name ∷ []))
unfolding parent
parent-split [] h = elim (h refl) [ ]
parent-split (name ∷ []) h = (name, refl)
parent-split (name ∷ next ∷ path) h =
    let (last, e) = parent-split (next ∷ path) (λ p. cc) in (last, ap (λ l. name ∷ l) e)

-- What may come of a fetch: an inline resource of its own URL, or a file below the asset folder.
abbrev pub IsSafe : (assets_root : List String) → (scheme : Text) → Fetched → Type 0
IsSafe assets_root scheme (inline url) = text_eq scheme (codes "data") ≡ true
IsSafe assets_root scheme (opened path) =
    ((text_eq scheme (codes "file") || text_eq scheme []) ≡ true)
    × (name : String) × (rest : List String) × (path ≡ assets_root ++ (name ∷ rest))
IsSafe assets_root scheme blocked = Unit

parent-prefix :
    (root target : List String)
    → root ≢ []
    → path_eq (parent target) root ≡ true
    → (name : String) × (rest : List String) × (target ≡ root ++ (name ∷ rest))
unfolding parent
parent-prefix root [] h same = absurd (h (sym (path_eq_sound [] root same)))
parent-prefix root (b ∷ target) h same =
    let (name, e) = parent-split (b ∷ target) (λ p. cc) in
    (name, [], e ∙ ap (λ p. p ++ (name ∷ [])) (path_eq_sound (parent (b ∷ target)) root same))

-- Whatever URL a PDF template names, and however it is parsed and resolved, the fetch of it opens no
-- file outside the asset folder (which is not the root of the file system), and it reads a URL itself
-- only where the scheme is `data`: nothing is fetched from the network.
pub url_fetcher-IsSafe :
    (urlparse : Text → Text × Text) (resolve : Text → List String) (assets_root : List String)
    (url : Text)
    → assets_root ≢ []
    → IsSafe assets_root (urlparse url).0 (url_fetcher urlparse resolve assets_root url)
unfolding url_fetcher
url_fetcher-IsSafe urlparse resolve root url h =
    let scheme = (urlparse url).0 in
    let target = resolve (urlparse url).1 in
    elim (Bool-cases (text_eq scheme (codes "data"))) [
      | inl d ↦ rw (url_fetcher, d) d
      | inr d ↦
          elim (Bool-cases (text_eq scheme (codes "http") || text_eq scheme (codes "https"))) [
            | inl w ↦ rw (url_fetcher, d, w) tt
            | inr w ↦ elim (Bool-cases (text_eq scheme (codes "file") || text_eq scheme [])) [
              | inr f ↦ rw (url_fetcher, d, w, f) tt
              | inl f ↦ elim (Bool-cases (in_parents root target)) [
                | inl p ↦
                    rw (url_fetcher, d, w, f, p)
                      (let (name, rest, e) = in_parents-prefix root target p in (f, name, rest, e))
                | inr p ↦ elim (Bool-cases (path_eq (parent target) root)) [
                  | inl q ↦
                      rw (url_fetcher, d, w, f, p, q)
                        (let (name, rest, e) = parent-prefix root target h q in (f, name, rest, e))
                  | inr q ↦ rw (url_fetcher, d, w, f, p, q) tt
                ]
              ]
            ]
          ]
    ]
