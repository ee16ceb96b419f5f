-- ===== src/Service/Drift.antt =====
-- src/service/drift.js: the report of commits that the publisher did not make and of commits not pushed.
-- The logs that git prints are arguments; a log that cannot be read is empty.
use omp_spec_kit.Prelude.{
  Text, text_beq, Bool, false, not, ◌&&◌, ◌≡◌, refl, Option, none, some, List, [], ◌∷◌, ◌++◌, map,
  any, arith, Bool-cases, inl, inr, if◌then◌else◌, All, sym,
}

pub record Commit : Type 0 where
  pub hash : Text
  pub author_name : Text
  pub paths : List Text

pub data DriftKind : Type 0 where
  clone_ahead_of_remote non_bot_commit : DriftKind

pub record DriftEvent : Type 0 where
  pub kind : DriftKind
  pub commit : Text
  pub author : Text
  pub divergent_paths : List Text

abbrev pub event_of : DriftKind → Commit → DriftEvent
event_of kind c = record {
  kind = kind;
  commit = c.hash;
  author = c.author_name;
  divergent_paths = c.paths;
}

abbrev pub log_or_empty : Option (List Commit) → List Commit
log_or_empty none = []
log_or_empty (some commits) = commits

abbrev pub has_hash : Text → List Commit → Bool
has_hash hash commits = any (λ c. text_beq c.hash hash) commits

-- The second loop with its two `continue`s.
unfoldable pub foreign_events : Text → List Commit → List Commit → List DriftEvent
foreign_events bot ahead [] = []
foreign_events bot ahead (c ∷ cs) =
    let rest = foreign_events bot ahead cs in
    if text_beq c.author_name bot
    then rest
    else if has_hash c.hash ahead
    then rest
    else event_of non_bot_commit c ∷ rest

unfoldable pub compute_drift : Text → Option (List Commit) → Option (List Commit) → List DriftEvent
compute_drift bot ahead recent =
    map (event_of clone_ahead_of_remote) (log_or_empty ahead)
    ++ foreign_events bot (log_or_empty ahead) (log_or_empty recent)

abbrev pub worktree_events : Option Text → Option (List Commit) → List DriftEvent
worktree_events none commits = []
worktree_events (some []) commits = []
worktree_events (some (c ∷ cs)) commits =
    map (event_of clone_ahead_of_remote) (log_or_empty commits)

-- `local` is what the work branch resolves to, where it does.
unfoldable pub worktree_drift : Option Text → Option (List Commit) → List DriftEvent
worktree_drift local commits = worktree_events local commits

abbrev pub IsForeignEvent : Text → List Commit → DriftEvent → Type 0
IsForeignEvent bot ahead e =
    (e.kind ≡ non_bot_commit) × (text_beq e.author bot ≡ false) × (has_hash e.commit ahead ≡ false)

foreign_events_sound :
    (bot : Text) (ahead recent : List Commit)
    → All (IsForeignEvent bot ahead) (foreign_events bot ahead recent)
unfolding foreign_events
foreign_events_sound bot ahead [] = tt
foreign_events_sound bot ahead (c ∷ cs) = elim (Bool-cases (text_beq c.author_name bot)) [
  | inl own ↦ rw own (foreign_events_sound bot ahead cs)
  | inr foreign ↦ rw foreign (elim (Bool-cases (has_hash c.hash ahead)) [
    | inl known ↦ rw known (foreign_events_sound bot ahead cs)
    | inr new ↦ rw new ((refl, foreign, new), foreign_events_sound bot ahead cs)
  ])
]

foreign_events_complete :
    (bot hash : Text) (ahead recent : List Commit)
    → any
        (λ c.
          text_beq c.hash hash && not (text_beq c.author_name bot) && not (has_hash c.hash ahead))
        recent
      ≡ any (λ (e : DriftEvent). text_beq e.commit hash) (foreign_events bot ahead recent)
unfolding foreign_events
foreign_events_complete bot hash ahead [] = refl
foreign_events_complete bot hash ahead (c ∷ cs) =
    ground (arith, foreign_events_complete bot hash ahead cs)

-- The report on a branch has every commit that is not pushed, in order, and then events for commits that are
-- no bot's and are not among those; a commit of the remote's log is reported there exactly if its author is not
-- the bot and no commit that is not pushed has its hash.
compute_drift_lem :
    (bot hash : Text) (ahead recent : List Commit)
    → (compute_drift bot (some ahead) (some recent)
        ≡ map (event_of clone_ahead_of_remote) ahead ++ foreign_events bot ahead recent)
      × All (IsForeignEvent bot ahead) (foreign_events bot ahead recent)
      × (any (λ (e : DriftEvent). text_beq e.commit hash) (foreign_events bot ahead recent)
          ≡ any
              (λ c.
                text_beq c.hash hash
                && not (text_beq c.author_name bot)
                && not (has_hash c.hash ahead))
              recent)
unfolding compute_drift
compute_drift_lem bot hash ahead recent = (
  refl,
  foreign_events_sound bot ahead recent,
  sym (foreign_events_complete bot hash ahead recent),
)
