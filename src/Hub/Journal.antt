-- ===== src/Hub/Journal.antt =====
-- The output journal of crates/instrument-hub/src/core.rs: `Core::persist` replaces the file that
-- names every source whose output may be on, and `Core::new` reads it.
-- The file system and the JSON encoding are parameters, over the state `D` of a disk.
pub mod Durability
use kohdalab_iv.Common.Results.{◌>>=◌, ◌>>◌}
use kohdalab_iv.Common.{
  ℕ, zero, suc, ◌+◌, ◌≡◌, ◌≢◌, refl, ◌⊎◌, inl, inr, String, Bool, true, false, Option, none, some,
  List, [], ◌∷◌, if◌then◌else◌, leb, length, take, Result, ok, err, arith,
}
use kohdalab_iv.Common.Map.{Map}
use kohdalab_iv.Protocol.{ErrorCode, state_unknown, internal}

-- The sources whose output is not verified off: address and model.
abbrev pub Quarantine : Type 0
Quarantine = Map String

pub data ReadFile : Type 0 where
  bytes : List ℕ → ReadFile
  not_found : ReadFile
  failed : ReadFile

-- The calls that `persist` and `new` make. `false` is an error of that call.
pub record Disk (D : Type 0) : Type 0 where
  pub create_new : D → D × Bool
  pub write_all : D → List ℕ → D × Bool
  pub sync_all : D → D × Bool
  pub rename : D → D × Bool
  pub sync_directory : D → D × Bool
  pub remove_temporary : D → D
  pub read_journal : D → ReadFile
  pub encode : Quarantine → Option (List ℕ)
  pub decode : List ℕ → Option Quarantine

-- What POSIX and the JSON encoding promise. `journal` is the content of the journal file, and
-- `temporary` that of the temporary file.
pub record IsDisk {D : Type 0} (d : Disk D) (journal temporary : D → Option (List ℕ)) : Type 0 where
  pub create_keeps : (s : D) → journal (d.create_new s).0 ≡ journal s
  pub write_keeps : (s : D) (b : List ℕ) → journal (d.write_all s b).0 ≡ journal s
  pub write_writes :
      (s : D) (b : List ℕ) → (d.write_all s b).1 ≡ true → temporary (d.write_all s b).0 ≡ some b
  pub sync_keeps : (s : D) → journal (d.sync_all s).0 ≡ journal s
  pub sync_keeps_temporary : (s : D) → temporary (d.sync_all s).0 ≡ temporary s
  pub rename_moves : (s : D) → (d.rename s).1 ≡ true → journal (d.rename s).0 ≡ temporary s
  pub rename_keeps : (s : D) → (d.rename s).1 ≡ false → journal (d.rename s).0 ≡ journal s
  pub sync_directory_keeps : (s : D) → journal (d.sync_directory s).0 ≡ journal s
  pub remove_keeps : (s : D) → journal (d.remove_temporary s) ≡ journal s
  pub decode-encode : (q : Quarantine) (b : List ℕ) → d.encode q ≡ some b → d.decode b ≡ some q
  pub read_exact : (s : D) (b : List ℕ) → d.read_journal s ≡ bytes b → journal s ≡ some b
  pub read_missing : (s : D) → d.read_journal s ≡ not_found → journal s ≡ none

module _ {D : Type 0} (d : Disk D) where
  -- The calls on the file system, up to the first that fails.
  unfoldable pub replace_file : D → List ℕ → D × Bool
  replace_file s b =
      let (s₁, created) = d.create_new s in
      let (s₂, written) = d.write_all s₁ b in
      let (s₃, synced) = d.sync_all s₂ in
      let (s₄, renamed) = d.rename s₃ in
      if created
      then (if written
          then (if synced
              then (if renamed then d.sync_directory s₄ else (s₄, false))
              else (s₃, false))
          else (s₂, false))
      else (s₁, false)

  -- `persist`, as a function of the disk and of what is to be written.
  unfoldable pub write_journal : D → Quarantine → D × Result (Unit {0}) ErrorCode
  write_journal s q = elim (d.encode q) [
    | none ↦ (s, err internal)
    | some b ↦
        let (s', done) = replace_file s b in
        if done then (s', ok tt) else (d.remove_temporary s', err state_unknown)
  ]

  decode_journal : List ℕ → Result Quarantine ErrorCode
  decode_journal b =
      if leb (length b) 8192
      then elim (d.decode b) [ none ↦ err state_unknown | some q ↦ ok q ]
      else err state_unknown

  -- What `Core::new` makes of the file: at most 8193 bytes are read.
  unfoldable pub load_journal : D → Result Quarantine ErrorCode
  unfolding decode_journal
  load_journal s = elim (d.read_journal s) [
    | bytes b ↦ decode_journal (take 8193 b)
    | not_found ↦ ok []
    | failed ↦ err state_unknown
  ]
