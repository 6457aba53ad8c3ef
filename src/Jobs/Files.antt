-- ===== src/Jobs/Files.antt =====
-- edc_translation/jobs.py: `FileTranslationJobRepository`, one JSON file for each job.
pub mod Laws
use edctranslation_public.Prelude.{
  ℕ, String, ◌<>◌, ◌≡◌, Bool, true, false, ◌&&◌, ◌||◌, Option, none, some, List, [], ◌∷◌, map, leb,
  ◌==◌, nat_eq, string_eq, all, starts_with, if◌then◌else◌,
}
use Prim.Native.Char.{code}
use edctranslation_public.Prelude.Dict
use edctranslation_public.Prelude.Dict.{Dict}
use edctranslation_public.Prelude.Errors.{Result, ok, err, ◌>>=◌, Exception, key_error}
use edctranslation_public.Json.{Payload, Runtime}
use edctranslation_public.Jobs.Job.{TranslationJob, Change, changed, to_dict, from_dict}
use edctranslation_public.Jobs.Repository.{JobStore}

-- What the repository uses of `json` and `str`: writing a dict as text, reading it back, and lower
-- case.
pub record Codec : Type 1 where
  pub Text : Type 0
  pub dumps : Payload → Text
  pub loads : Text → Result Exception Payload
  pub lower : String → String
  pub loads-dumps : (p : Payload) → loads (dumps p) ≡ ok p

abbrev pub codes : String → List ℕ
codes String.[] = []
codes (String.◌∷◌ c s) = code c ∷ codes s

-- A character of "abcdefghijklmnopqrstuvwxyz0123456789_"
abbrev pub in_alphabet : ℕ → Bool
in_alphabet c = (leb b'a' c && leb c b'z') || (leb b'0' c && leb c b'9') || c == b'_'

module _ (py : Runtime) (json : Codec) where
  -- The directory: the texts of its files, by file name.
  abbrev pub Files : Type 0
  Files = Dict String json.Text

  -- The test of `_path`, which keeps every id inside the directory.
  unfoldable pub is_job_id : String → Bool
  is_job_id id = starts_with id "trjob_" && all in_alphabet (codes (json.lower id))

  unfoldable pub path : String → Result Exception String
  path id = if is_job_id id then ok (id <> ".json") else err (key_error id)

  unfoldable pub decode : json.Text → Result Exception TranslationJob
  decode content = do payload ← json.loads content; from_dict py payload

  unfoldable pub read : String → Files → Result Exception TranslationJob
  read id files = do
    name ← path id
    content ← elim (Dict.lookup name files) [ none ↦ err (key_error id) | some t ↦ ok t ]
    decode content

  unfoldable pub write : TranslationJob → Files → Result Exception (Unit {0}) × Files
  write job files = elim (path job.job_id) [
    | err e ↦ (err e, files)
    | ok name ↦ (ok tt, Dict.insert name (json.dumps (to_dict job)) files)
  ]

  -- `_update` writes the changed job under the id that the file itself states.
  unfoldable pub update :
      String → List Change → String → Files → Result Exception TranslationJob × Files
  update id cs now files = elim (read id files) [
    | err e ↦ (err e, files)
    | ok job ↦
        let (written, files') = write (changed cs now job) files in
        (elim written [ err e ↦ err e | ok u ↦ ok (changed cs now job) ], files')
  ]

  abbrev pub files : JobStore
  files = record { State = Files; write = write; update = update; read = read }
