-- ===== src/Ingest/State/Paths.antt =====
-- The temporary path of a document is the path of no document.
use elt_pipeline.Prelude.{
  ℕ, String, Bool, true, false, ◌≡◌, ◌≢◌, refl, sym, ap, ◌∙◌, true-false, arith,
}
use Prim.Native.Char.{Char, code}
use Prim.Native.String.append
use elt_pipeline.Prelude.Text.{concat}
use elt_pipeline.Ingest.State.{state_file, sanitize_path_fragment}

abbrev filled : String → Bool
filled String.[] = false
filled (String.◌∷◌ c s) = true

-- The code of the last character.
abbrev last_code : String → ℕ
last_code String.[] = 0
last_code (String.◌∷◌ c String.[]) = code c
last_code (String.◌∷◌ c (String.◌∷◌ d s)) = last_code (String.◌∷◌ d s)

filled-concat : (s t : String) → filled t ≡ true → filled (concat s t) ≡ true
filled-concat String.[] t h = ap filled (append.nil t) ∙ h
filled-concat (String.◌∷◌ c s) t h = ap filled (append.cons c s t)

last_code_cons :
    (c : Char) (s : String) → filled s ≡ true → last_code (String.◌∷◌ c s) ≡ last_code s
last_code_cons c String.[] h = absurd (true-false (sym h))
last_code_cons c (String.◌∷◌ d s) h = refl

last_code-concat : (s t : String) → filled t ≡ true → last_code (concat s t) ≡ last_code t
last_code-concat String.[] t h = ap last_code (append.nil t)
last_code-concat (String.◌∷◌ c s) t h =
    ap last_code (append.cons c s t)
    ∙ last_code_cons c (concat s t) (filled-concat s t h)
    ∙ last_code-concat s t h

last_code-state_file : (env source entity : String) → last_code (state_file env source entity) ≡ 110
unfolding state_file
last_code-state_file env source entity =
    let name = concat (sanitize_path_fragment entity) ".json" in
    let inner = concat "/entity=" name in
    let outer = concat (sanitize_path_fragment source) inner in
    let f1 = filled-concat (sanitize_path_fragment entity) ".json" refl in
    let f2 = filled-concat "/entity=" name f1 in
    let f3 = filled-concat (sanitize_path_fragment source) inner f2 in
    last_code-concat "state/source=" outer f3
    ∙ last_code-concat (sanitize_path_fragment source) inner f2
    ∙ last_code-concat "/entity=" name f1
    ∙ last_code-concat (sanitize_path_fragment entity) ".json" refl

pub temporary_apart :
    (env source entity env' source' entity' : String)
    → concat (state_file env source entity) ".tmp" ≢ state_file env' source' entity'
temporary_apart env source entity env' source' entity' = λ e.
    let codes =
      sym (last_code-concat (state_file env source entity) ".tmp" refl)
      ∙ ap last_code e
      ∙ last_code-state_file env' source' entity' in
    absurd (omega (arith, codes))
