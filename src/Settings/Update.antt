-- ===== src/Settings/Update.antt =====
-- object/settings.go, `MutateSettingsWithUndo` and `SaveSettings`: a change of the settings, with the
-- world outside settings.yaml (an agent's own files) that it may change too. Writing
-- the file is the operating system's, and is given as its result.
use casdoor_aiguard.Common.{Option, none, some, ◌≡◌, refl, inl, inr, Option-cases}
use casdoor_aiguard.Common.Text.{Str}
use casdoor_aiguard.Settings.{Settings}

-- The in-memory copy, the file, and all else that a change touches. `none` in memory is a process
-- that has not read its settings yet.
pub record Store (W : Type 0) : Type 0 where
  pub current : Option Settings
  pub file : Option Settings
  pub world : W

pub data Error : Type 0 where
  build_failed : Str → Error
  save_failed : Str → Error
  save_and_undo_failed : Str → Str → Error

pub data Outcome : Type 0 where
  done : Settings → Outcome
  failed : Error → Outcome

-- `func() error`, acting on the world
abbrev pub Undo : Type 0 → Type 0
Undo W = W → Option Str × W

-- What `build` returns, beside the world that it leaves.
pub data Built (W : Type 0) : Type 0 where
  next : Settings → Option (Undo W) → Built W
  refused : Str → Built W

module _ {W : Type 0} (from_conf : Settings) (write : Settings → Option Str) where
  -- `GetSettings`: a private copy of the live settings, or those of app.conf.
  unfoldable pub get_settings : Store W → Settings
  get_settings s = elim s.current [ none ↦ from_conf | some c ↦ c ]

  -- `SaveSettings`
  unfoldable pub save_settings : Settings → Store W → Option Str × Store W
  save_settings n s = elim (write n) [
    | some e ↦ (some e, s)
    | none ↦ (none, record s { current = some n; file = some n })
  ]

  -- What is reported when the undo has run, by its own result.
  unfoldable pub undone : Str → Store W → Option Str × W → Outcome × Store W
  undone e s (some e', w) = (failed (save_and_undo_failed e e'), record s { world = w })
  undone e s (none, w) = (failed (save_failed e), record s { world = w })

  -- What follows `SaveSettings`.
  unfoldable pub settle : Settings → Option (Undo W) → Option Str × Store W → Outcome × Store W
  unfolding undone
  settle n undo (none, s) = (done n, s)
  settle n none (some e, s) = (failed (save_failed e), s)
  settle n (some undo) (some e, s) = undone e s (undo s.world)

  unfoldable pub commit : Built W → Store W → Outcome × Store W
  unfolding save_settings settle
  commit (refused e) s = (failed (build_failed e), s)
  commit (next n undo) s = settle n undo (save_settings n s)

  -- `MutateSettingsWithUndo`, under its mutex
  unfoldable pub mutate_settings_with_undo :
      (Settings → W → Built W × W) → Store W → Outcome × Store W
  unfolding commit get_settings
  mutate_settings_with_undo build s =
      let (built, w) = build (get_settings s) s.world in commit built (record s { world = w })

  -- What undoing a change brings back.
  abbrev pub Restores : Option (Undo W) → W → W → Type 0
  Restores none after before = after ≡ before
  Restores (some undo) after before = undo after ≡ (none, before)

  -- What `MutateSettingsWithUndo` leaves, against the store before it.
  pub data Committed (build : Settings → W → Built W × W) (s : Store W)
      : Outcome × Store W → Type 0 where
    persisted :
        (n : Settings) (w : W)
        → write n ≡ none
        → w ≡ (build (get_settings s) s.world).1
        → Committed build s (done n, record { current = some n; file = some n; world = w })
    aborted : (e : Error) → Committed build s (failed e, s)

  commit-Committed :
      (build : Settings → W → Built W × W) (s : Store W) (b : Built W) (w : W)
      → w ≡ (build (get_settings s) s.world).1
      → ((e : Str) → b ≡ refused e → w ≡ s.world)
      → ((n : Settings) (undo : Option (Undo W)) → b ≡ next n undo → Restores undo w s.world)
      → Committed build s (commit b (record s { world = w }))
  unfolding commit
  commit-Committed build s (refused e) w q keeps restores =
      rw (keeps e refl) (aborted (build_failed e))
  commit-Committed build s (next n undo) w q keeps restores = elim (Option-cases (write n)) [
    | inl saved ↦ rw (saved, save_settings) (persisted n w saved q)
    | inr (e, failing) ↦ rw (failing, save_settings) (back e undo (restores n undo refl))
  ]
    where
      back :
          (e : Str) (u : Option (Undo W))
          → Restores u w s.world
          → Committed build s (settle n u (some e, record s { world = w }))
      back e none r = rw r (aborted _)
      back e (some u) r = rw r (aborted _)

  -- A change is atomic: either it is persisted, in memory and in the file alike, or it is reported
  -- as failed, and the settings, the file and the world are as before. It holds of a change that
  -- leaves the world alone when it refuses, and whose undo succeeds and restores the world.
  pub mutate_settings_with_undo-Committed :
      (build : Settings → W → Built W × W) (s : Store W)
      → ((e : Str)
          → (build (get_settings s) s.world).0 ≡ refused e
          → (build (get_settings s) s.world).1 ≡ s.world)
      → ((n : Settings) (undo : Option (Undo W))
          → (build (get_settings s) s.world).0 ≡ next n undo
          → Restores undo (build (get_settings s) s.world).1 s.world)
      → Committed build s (mutate_settings_with_undo build s)
  unfolding mutate_settings_with_undo
  mutate_settings_with_undo-Committed build s keeps restores =
      commit-Committed build s _ _ refl keeps restores
