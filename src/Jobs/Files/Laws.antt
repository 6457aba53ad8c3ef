-- ===== src/Jobs/Files/Laws.antt =====
-- The file repository shows its clients the jobs that were written, like the one in memory.
use text.Mathlib.TextLemmas.{append_cancel_right}
use edctranslation_public.Prelude.{
  String, ◌<>◌, ◌≡◌, refl, true, false, Option, none, some, List, [], ◌∷◌, arith, sym, ◌∙◌, ◌==◌,
  string_eq, if◌then◌else◌, Bool-cases, Option-cases, inl, inr,
}
use edctranslation_public.Prelude.Dict
use edctranslation_public.Prelude.Dict.{Dict}
use edctranslation_public.Prelude.Errors.{ok, err, key_error}
use edctranslation_public.Json.{Runtime}
use edctranslation_public.Jobs.Job.{
  TranslationJob, Change, set_status, set_updated_at, set_completed_at, set_translation_bundle,
  set_error, set_attributes, changed, to_dict, from_dict-to_dict,
}
use edctranslation_public.Jobs.Repository.{IsJobStore}
use edctranslation_public.Jobs.Files.{
  Codec, Files, is_job_id, path, decode, read, write, update, files,
}

module _ (py : Runtime) (json : Codec) where
  decode-dumps : (job : TranslationJob) → decode py json (json.dumps (to_dict job)) ≡ ok job
  unfolding decode
  decode-dumps job = rw (json.loads-dumps (to_dict job)) (from_dict-to_dict py job)

  -- Every file with a job's name holds that job.
  pub record HoldsJobs (fs : Files py json) : Type 0 where
    pub holds :
        (id : String) (content : json.Text)
        → Dict.lookup (id <> ".json") fs ≡ some content
        → (job : TranslationJob) × (decode py json content ≡ ok job) × (job.job_id ≡ id)

  abbrev decoded : Option json.Text → Option TranslationJob
  decoded none = none
  decoded (some content) = elim (decode py json content) [ ok job ↦ some job | err e ↦ none ]

  abbrev view : Files py json → String → Option TranslationJob
  view fs id = if is_job_id py json id then decoded (Dict.lookup (id <> ".json") fs) else none

  same_name : (i j : String) → i <> ".json" ≡ j <> ".json" → i ≡ j
  same_name i j h = append_cancel_right i j ".json" h

  read-view :
      (id : String) (fs : Files py json)
      → HoldsJobs fs
      → read py json id fs ≡ elim (view fs id) [ none ↦ err (key_error id) | some job ↦ ok job ]
  unfolding read path
  read-view id fs s = elim (Bool-cases (is_job_id py json id)) [
    | inr bad ↦ rw bad
    | inl good ↦ elim (Option-cases (Dict.lookup (id <> ".json") fs)) [
      | inl missing ↦ rw (good, missing)
      | inr (content, found) ↦ let (job, d, e) = s.holds id content found in rw (good, found, d)
    ]
  ]

  set_attributes-job_id :
      (cs : List Change) (job : TranslationJob) → (set_attributes cs job).job_id ≡ job.job_id
  set_attributes-job_id [] job = refl
  set_attributes-job_id (set_status v ∷ cs) job = set_attributes-job_id cs _
  set_attributes-job_id (set_updated_at v ∷ cs) job = set_attributes-job_id cs _
  set_attributes-job_id (set_completed_at v ∷ cs) job = set_attributes-job_id cs _
  set_attributes-job_id (set_translation_bundle v ∷ cs) job = set_attributes-job_id cs _
  set_attributes-job_id (set_error v ∷ cs) job = set_attributes-job_id cs _

  changed-job_id :
      (cs : List Change) (now : String) (job : TranslationJob)
      → (changed cs now job).job_id ≡ job.job_id
  unfolding changed
  changed-job_id cs now job = ground (arith, set_attributes-job_id cs job)

  -- A job that the view shows has an accepted name, a file of that name, and its own id.
  view-some :
      (id : String) (fs : Files py json) (job : TranslationJob)
      → HoldsJobs fs
      → view fs id ≡ some job
      → (is_job_id py json id ≡ true) × (read py json id fs ≡ ok job) × (job.job_id ≡ id)
  view-some id fs job s h = elim (Bool-cases (is_job_id py json id)) [
    | inr bad ↦ ground arith
    | inl good ↦ elim (Option-cases (Dict.lookup (id <> ".json") fs)) [
      | inl missing ↦ ground arith
      | inr (content, found) ↦
          let (job', d, e) = s.holds id content found in
          (good, rw (read-view id fs s) (rw h refl), ground arith)
    ]
  ]

  write_lem :
      (job : TranslationJob) (fs : Files py json)
      → is_job_id py json job.job_id ≡ true
      → write py json job fs
        ≡ (ok tt, Dict.insert (job.job_id <> ".json") (json.dumps (to_dict job)) fs)
  unfolding write path
  write_lem job fs good = ground arith

  -- A file that is read after a write is the written one or an older one.
  lookup-write :
      (job : TranslationJob) (fs : Files py json) (id : String)
      → is_job_id py json job.job_id ≡ true
      → Dict.lookup (id <> ".json") (write py json job fs).1 ≡ (
          if id == job.job_id
          then some (json.dumps (to_dict job))
          else Dict.lookup (id <> ".json") fs)
  lookup-write job fs id good = elim (string_eq.dec id job.job_id) [
    | yes p ↦
        rw (write_lem job fs good, p)
          (ground
            (arith, Dict.lookup-insert_self (job.job_id <> ".json") (json.dumps (to_dict job)) fs))
    | no p ↦ rw (write_lem job fs good) (
        ground (
          arith,
          Dict.lookup-insert_ne (id <> ".json") (job.job_id <> ".json") (json.dumps (to_dict job))
              fs (λ e. p (same_name id job.job_id e)),
        ))
  ]

  write_refused :
      (job : TranslationJob) (fs : Files py json)
      → is_job_id py json job.job_id ≡ false
      → write py json job fs ≡ (err (key_error job.job_id), fs)
  unfolding write path
  write_refused job fs bad = ground arith

  pub HoldsJobs-empty : HoldsJobs []
  unfolding Dict.lookup
  HoldsJobs-empty = record { holds = λ id content found. absurd (cc found) }

  pub write-HoldsJobs :
      (job : TranslationJob) (fs : Files py json)
      → HoldsJobs fs
      → HoldsJobs (write py json job fs).1
  write-HoldsJobs job fs s = elim (Bool-cases (is_job_id py json job.job_id)) [
    | inr bad ↦ rw (write_refused job fs bad) s
    | inl good ↦ record {
      holds = λ id content found. elim (string_eq.dec id job.job_id) [
        | yes p ↦ (job, ground (arith, lookup-write job fs id good, decode-dumps job), sym p)
        | no p ↦ s.holds id content (ground (arith, lookup-write job fs id good))
      ];
    }
  ]

  view-write :
      (job : TranslationJob) (fs : Files py json) (j : String)
      → is_job_id py json job.job_id ≡ true
      → view (write py json job fs).1 j ≡ (if j == job.job_id then some job else view fs j)
  view-write job fs j good = elim (string_eq.dec j job.job_id) [
    | yes p ↦ rw (lookup-write job fs j good) (ground (arith, decode-dumps job))
    | no p ↦ rw (lookup-write job fs j good) (ground arith)
  ]

  -- `_update` on a job that the view shows is a write of the changed job.
  update_lem :
      (id : String) (cs : List Change) (now : String) (job : TranslationJob) (fs : Files py json)
      → HoldsJobs fs
      → view fs id ≡ some job
      → update py json id cs now fs
        ≡ (ok (changed cs now job), (write py json (changed cs now job) fs).1)
  unfolding update
  update_lem id cs now job fs s h =
      let (good, found, own) = view-some id fs job s h in
      let named : is_job_id py json (changed cs now job).job_id ≡ true =
        rw (changed-job_id cs now job, own) good in
      rw (found, update, write_lem (changed cs now job) fs named)

  update-missing :
      (id : String) (cs : List Change) (now : String) (fs : Files py json)
      → HoldsJobs fs
      → view fs id ≡ none
      → update py json id cs now fs ≡ (err (key_error id), fs)
  unfolding update
  update-missing id cs now fs s h =
      let e : read py json id fs ≡ err (key_error id) = rw (read-view id fs s) (rw h) in
      rw (e, update)

  update-HoldsJobs :
      (id : String) (cs : List Change) (now : String) (fs : Files py json)
      → HoldsJobs fs
      → HoldsJobs (update py json id cs now fs).1
  update-HoldsJobs id cs now fs s = elim (Option-cases (view fs id)) [
    | inl missing ↦ rw (update-missing id cs now fs s missing) s
    | inr (job, h) ↦
        rw (update_lem id cs now job fs s h) (write-HoldsJobs (changed cs now job) fs s)
  ]

  view-update :
      (id : String) (cs : List Change) (now : String) (job : TranslationJob) (fs : Files py json)
      (j : String)
      → HoldsJobs fs
      → view fs id ≡ some job
      → view (update py json id cs now fs).1 j
        ≡ (if j == id then some (changed cs now job) else view fs j)
  view-update id cs now job fs j s h =
      let (good, found, own) = view-some id fs job s h in
      let same : (changed cs now job).job_id ≡ id = changed-job_id cs now job ∙ own in
      rw
        (update_lem id cs now job fs s h, view-write (changed cs now job) fs j (rw same good), same)

  -- The contract of a job store, for the directories that the repository writes and the ids that
  -- `_path` accepts.
  pub files-IsJobStore : IsJobStore (files py json)
  files-IsJobStore = record {
    view = view;
    accepts = is_job_id py json;
    IsSound = HoldsJobs;
    write-result = λ job fs good. rw (write_lem job fs good);
    view-write = view-write;
    write-IsSound = write-HoldsJobs;
    update-result = λ id cs now job fs s h. rw (update_lem id cs now job fs s h);
    view-update = view-update;
    update-missing = update-missing;
    update-IsSound = update-HoldsJobs;
    read-view = read-view;
  }

  read_shown :
      (id : String) (job : TranslationJob) (fs : Files py json)
      → HoldsJobs fs
      → read py json id fs ≡ ok job
      → view fs id ≡ some job
  read_shown id job fs s h = elim (Option-cases (view fs id)) [
    | inl missing ↦ absurd (cc (read-view id fs s, missing, h))
    | inr (job', shown) ↦ cc (read-view id fs s, shown, h)
  ]

  -- Where the directory holds files of jobs alone and a job can be read: an update of the job
  -- returns it changed; afterwards its id reads the changed job, every other id reads what it read
  -- before, and the directory still holds files of jobs alone.
  pub read-update :
      (id : String) (cs : List Change) (now : String) (job : TranslationJob) (fs : Files py json)
      → HoldsJobs fs
      → read py json id fs ≡ ok job
      → let (r, after) = update py json id cs now fs in
        (r ≡ ok (changed cs now job))
        × ((j : String)
            → read py json j after
              ≡ (if j == id then ok (changed cs now job) else read py json j fs))
        × HoldsJobs after
  read-update id cs now job fs s h =
      let shown = read_shown id job fs s h in
      let s' = update-HoldsJobs id cs now fs s in
      (
        rw (update_lem id cs now job fs s shown),
        λ j. read-view j (update py json id cs now fs).1 s' ∙ elim (Bool-cases (j == id)) [
          | inl same ↦ rw (view-update id cs now job fs j s shown, same) refl
          | inr other ↦ rw (view-update id cs now job fs j s shown, other) (sym (read-view j fs s))
        ],
        s',
      )
