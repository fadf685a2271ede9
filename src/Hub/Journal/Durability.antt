-- ===== src/Hub/Journal/Durability.antt =====
-- What the journal holds after `Core::persist` of crates/instrument-hub/src/core.rs, and what
-- `Core::new` reads of it.
use kohdalab_iv.Common.{
  ℕ, ◌≡◌, refl, ◌⊎◌, inl, inr, true, false, Option, none, some, List, [], ok, arith, take,
  take-eq_self, Option-cases, is_ok,
}
use kohdalab_iv.Hub.Journal.{
  Disk, IsDisk, Quarantine, ReadFile, bytes, not_found, failed, replace_file, write_journal,
  load_journal, decode_journal,
}

-- The quarantine that the content of a journal file stands for.
unfoldable pub decoded : {D : Type 0} → Disk D → Option (List ℕ) → Quarantine
decoded d none = []
decoded d (some b) = elim (d.decode b) [ none ↦ [] | some q ↦ q ]

module _ {D : Type 0} {d : Disk D} {journal temporary : D → Option (List ℕ)}
    (h : IsDisk d journal temporary) where
  replace_file-journal :
      (s : D) (b : List ℕ)
      → (((replace_file d s b).1 ≡ true) × (journal (replace_file d s b).0 ≡ some b))
        ⊎ (((replace_file d s b).1 ≡ false)
            × ((journal (replace_file d s b).0 ≡ some b)
                ⊎ (journal (replace_file d s b).0 ≡ journal s)))
  unfolding replace_file
  replace_file-journal s b =
      let s₁ = (d.create_new s).0 in
      let s₂ = (d.write_all s₁ b).0 in
      let s₃ = (d.sync_all s₂).0 in
      let s₄ = (d.rename s₃).0 in
      ground (
        arith,
        h.create_keeps s,
        h.write_keeps s₁ b,
        h.write_writes s₁ b,
        h.sync_keeps s₂,
        h.sync_keeps_temporary s₂,
        h.rename_moves s₃,
        h.rename_keeps s₃,
        h.sync_directory_keeps s₄,
      )

  -- A successful write leaves the new quarantine; a failed one leaves the new or the old.
  pub write_journal-decoded :
      (s : D) (q : Quarantine)
      → (is_ok (write_journal d s q).1 ≡ true → decoded d (journal (write_journal d s q).0) ≡ q)
        × ((decoded d (journal (write_journal d s q).0) ≡ q)
            ⊎ (decoded d (journal (write_journal d s q).0) ≡ decoded d (journal s)))
  unfolding write_journal decoded
  write_journal-decoded s q = elim (Option-cases (d.encode q)) [
    | inl e ↦ rw (e, write_journal) (ground arith)
    | inr (b, e) ↦
        rw (e, write_journal)
          (ground (
            arith,
            h.decode-encode q b e,
            replace_file-journal s b,
            h.remove_keeps (replace_file d s b).0,
          ))
  ]

  decode_journal-decoded :
      (s : D) (b : List ℕ) {q : Quarantine}
      → journal s ≡ some b
      → decode_journal d (take 8193 b) ≡ ok q
      → q ≡ decoded d (journal s)
  unfolding decode_journal decoded
  decode_journal-decoded s b j e = ground (arith, take-eq_self 8192 b)

  -- A restart that succeeds starts from what the journal file stands for.
  pub load_journal-decoded :
      (s : D) {q : Quarantine} → load_journal d s ≡ ok q → q ≡ decoded d (journal s)
  unfolding load_journal decoded
  load_journal-decoded s {q} e = by_content (d.read_journal s) refl
    where
      by_content : (r : ReadFile) → d.read_journal s ≡ r → q ≡ decoded d (journal s)
      by_content (bytes b) r =
          decode_journal-decoded s b (h.read_exact s b r) (rw (r, load_journal) at e)
      by_content not_found r = ground (arith, h.read_missing s r)
      by_content failed r = ground arith
