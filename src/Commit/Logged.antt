-- ===== src/Commit/Logged.antt =====
-- The log file that `commit` leaves, as `recover` reads it.
use nu_db.Prelude.{ℕ, ◌^◌, ◌≤◌, ◌<◌, ◌≡◌, refl, sym, ap, ◌∙◌, subst, fun_ext, List, arith}
use nu_db.Error.{ok}
use nu_db.Memory.{Memory}
use nu_db.Endian.{Endian}
use nu_db.File.{FileOps, FileLaws, Works}
use nu_db.Format.{Hasher, log_header_size}
use nu_db.Format.Headers.{KeyFileHeader}
use nu_db.BulkIo.{Writer, writer, tail, flush}
use nu_db.BulkIo.Writing.{view, IsAppending, flush-total}
use nu_db.Cache
use nu_db.Recover.Log.{Log}
use nu_db.Commit.Files.{write_records}
use nu_db.Commit.Steps.{Committer, write_clean}
use nu_db.Commit.Blobs.{images}
use nu_db.Commit.Records.{Loggable, write_records-Logs}
use nu_db.Run.{once}

module _ {F : Type 0} (ops : FileOps F) (laws : FileLaws ops) (works : Works ops laws)
    (endian : Endian) (hasher : Hasher) (fresh : Memory) (kh : KeyFileHeader) (dat_size : ℕ) where
  -- The log file is written: its header is as it was, and the old buckets are its records.
  pub record IsLog (c : Committer F) (l : F) : Type 0 where
    pub done :
        write_clean ops endian hasher fresh c ≡ once (record c { lf = l; c0 = Cache.clear c.c0 })
    pub log :
        Log kh dat_size
          (laws.bytes l)
          (laws.extent l)
          log_header_size
          (images c.store.memory c.c0.map)
    pub header : (x : ℕ) → x < log_header_size → laws.bytes l x ≡ laws.bytes c.lf x

  write_clean_value :
      (c : Committer F) (v u : Writer F) (l : F)
      → write_records ops fresh c.store.memory c.store.block_size
          (writer fresh c.lf (laws.extent c.lf) c.log_write_size)
          c.c0.map
        ≡ ok v
      → flush ops fresh v ≡ ok u
      → ops.sync u.file ≡ ok l
      → write_clean ops endian hasher fresh c ≡ once (record c { lf = l; c0 = Cache.clear c.c0 })
  unfolding write_clean
  write_clean_value c v u l e1 e2 e3 = rw (works.sizes c.lf, write_clean, e1, e2, e3) refl

  -- A new writer has nothing in its buffer.
  at_start :
      (f : F) (size : ℕ)
      → let w = writer fresh f (laws.extent f) size in
        IsAppending ops laws fresh w
        × (tail w ≡ laws.extent f)
        × ((x : ℕ) → view ops laws fresh w x ≡ laws.bytes f x)
  unfolding writer view
  at_start f size = (refl, omega arith, λ x. ground arith)

  -- Where calls succeed, the log file holds its header only, and the old buckets are sound, the
  -- step returns, and the log has a record for each of them.
  pub write_clean-IsLog :
      (c : Committer F)
      → c.store.block_size ≡ kh.block_size
      → 8 ≤ kh.block_size
      → kh.buckets < 2 ^ 64
      → laws.extent c.lf ≡ log_header_size
      → Loggable kh dat_size c.store.memory c.c0.map
      → (l : F) × IsLog c l
  write_clean-IsLog c block room few short fit =
      let w = writer fresh c.lf (laws.extent c.lf) c.log_write_size in
      let (start, at, old) = at_start c.lf c.log_write_size in
      let (v, h) =
        write_records-Logs ops laws fresh c.store.memory kh dat_size w c.c0.map works.writes room
          few fit in
      let (u, flushed, f) = flush-total ops laws fresh v (works.writes v.file) in
      let (l, synced) = works.syncs u.file in
      let same : laws.bytes l ≡ view ops laws fresh v =
        fun_ext (λ x. works.sync_lem u.file l synced x ∙ f.written x) in
      let end : tail v ≡ laws.extent l = omega (
        arith,
        works.sync_extent u.file l synced,
        f.appending (h.appending start),
        f.tail_same,
        f.used,
      ) in
      let first : tail w ≡ log_header_size = at ∙ short in
      (
        l,
        record {
          done =
              write_clean_value c v u l
                (subst (λ size. write_records ops fresh c.store.memory size w c.c0.map ≡ ok v)
                  (sym block) h.done)
                flushed synced;
          log = located kh dat_size c.store.memory c.c0.map _ _ _ _ _ _ same end first h.log;
          header = λ x lt. ap (λ m. m x) same ∙ h.before x (omega (arith, first)) ∙ old x;
        },
      )
    where
      located :
          (kh : KeyFileHeader) (dat_size : ℕ) (m : Memory) (es : List (ℕ × ℕ))
          (bytes bytes' : Memory) (last last' p p' : ℕ)
          → bytes' ≡ bytes
          → last ≡ last'
          → p ≡ p'
          → Log kh dat_size bytes last p (images m es)
          → Log kh dat_size bytes' last' p' (images m es)
      located kh dat_size m es bytes bytes' last last' p p' a b c log =
          subst (λ x. Log kh dat_size x last' p' (images m es)) (sym a)
            (subst (λ x. Log kh dat_size bytes x p' (images m es)) b
              (subst (λ x. Log kh dat_size bytes last x (images m es)) c log))
