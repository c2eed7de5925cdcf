-- ===== src/Recover/Loop.antt =====
-- The whole loop over the log, up to its end or a record that is not whole.
use nu_db.Prelude.{
  ℕ, zero, suc, ◌+◌, ◌≤◌, ◌<◌, ◌≡◌, refl, ap, ◌∙◌, some, List, [], true, false, arith,
}
use nu_db.Error.{ok, err, short_read}
use nu_db.Memory.{Memory, IsBytes}
use nu_db.File.{FileOps, FileLaws, Works}
use nu_db.Format.Headers.{KeyFileHeader}
use nu_db.BulkIo.{Reader, eof, position}
use nu_db.BulkIo.Hands.{IsVisitor, next, next_short}
use nu_db.Compact.{read_bulk}
use nu_db.Compact.Image.{read_bulk_short, read_bulk_torn}
use nu_db.Recover.{Replayer, onward, stopped, is_short, replay_bucket, replay_record, replay_log}
use nu_db.Recover.Log.{Log, end, torn_index, torn_header, torn_body, logged, restore, count}
use nu_db.Recover.Replay.{Stands, turn, turn_value, index_read}

module _ {F : Type 0} (ops : FileOps F) (laws : FileLaws ops) (works : Works ops laws)
    (fresh : Memory) (kh : KeyFileHeader) (dat_size : ℕ) where
  stop_bucket :
      (s : Replayer F) (n : ℕ)
      → read_bulk ops fresh s.bytes s.bucket s.reader ≡ err short_read
      → replay_bucket ops fresh kh dat_size n s ≡ ok (stopped s.kf)
  unfolding replay_bucket is_short
  stop_bucket s n e = rw (e, replay_bucket) refl

  -- The index is whole, and the bucket is not.
  stop_behind :
      (lf : F) (last p : ℕ) (s : Replayer F)
      → Stands ops laws works fresh kh dat_size lf last p s
      → p + 8 ≤ last
      → ((r : Reader F)
          → IsVisitor ops laws fresh lf last r
          → position r ≡ p + 8
          → read_bulk ops fresh s.bytes s.bucket r ≡ err short_read)
      → replay_record ops fresh kh dat_size s ≡ ok (stopped s.kf)
  stop_behind lf last p s h fits short =
      let (is, v, h1) = next ops laws fresh lf last s.reader 8 h.visitor (omega (arith, h.at)) in
      turn_value ops laws works fresh kh dat_size s _ is v h1.done h1.left
        (index_read ops laws works fresh kh dat_size lf last p s.reader v is h.at h1)
      ∙ stop_bucket (record s { reader = v }) _
          (short v h1.visitor (omega (arith, h.at, h1.advanced)))

  stop_index :
      (lf : F) (last p : ℕ) (s : Replayer F)
      → Stands ops laws works fresh kh dat_size lf last p s
      → last < p + 8
      → replay_record ops fresh kh dat_size s ≡ ok (stopped s.kf)
  unfolding replay_record is_short
  stop_index lf last p s h short =
      rw
        (
          next_short ops laws fresh lf last s.reader 8 h.visitor (omega (arith, h.at)),
          replay_record,
        )
        refl

  going :
      (lf : F) (last p : ℕ) (s : Replayer F)
      → Stands ops laws works fresh kh dat_size lf last p s
      → p < last
      → eof s.reader ≡ false
  unfolding eof
  going lf last p s h lt = ground (arith, h.at, h.visitor.last_lem)

  stop_value :
      (fuel : ℕ) (s : Replayer F)
      → eof s.reader ≡ false
      → replay_record ops fresh kh dat_size s ≡ ok (stopped s.kf)
      → replay_log ops fresh (suc fuel) kh dat_size s ≡ some (ok s.kf)
  unfolding replay_log
  stop_value fuel s more e = rw (more, replay_log, e) refl

  go_on_value :
      (fuel : ℕ) (s t : Replayer F)
      → eof s.reader ≡ false
      → replay_record ops fresh kh dat_size s ≡ ok (onward t)
      → replay_log ops fresh (suc fuel) kh dat_size s ≡ replay_log ops fresh fuel kh dat_size t
  unfolding replay_log
  go_on_value fuel s t more e = rw (more, replay_log, e) refl

  end_value :
      (fuel : ℕ) (s : Replayer F)
      → eof s.reader ≡ true
      → replay_log ops fresh (suc fuel) kh dat_size s ≡ some (ok s.kf)
  unfolding replay_log
  end_value fuel s e = rw (e, replay_log) refl

  -- The loop ends, with the buckets of the records in the key file.
  abbrev pub Replays : ℕ → Replayer F → List (ℕ × List ℕ) → Type 0
  Replays fuel s images =
      (g : F) × (replay_log ops fresh fuel kh dat_size s ≡ some (ok g))
      × (laws.bytes g ≡ restore (laws.bytes s.kf) kh.block_size images)
      × (laws.extent s.kf ≤ laws.extent g)

  stopped_Replays :
      (fuel : ℕ) (s : Replayer F)
      → replay_log ops fresh fuel kh dat_size s ≡ some (ok s.kf)
      → Replays fuel s []
  unfolding restore
  stopped_Replays fuel s e = (s.kf, e, refl, omega arith)

  pub replay_log-Replays :
      (lf : F) (last fuel p : ℕ) (s : Replayer F) (images : List (ℕ × List ℕ))
      → Stands ops laws works fresh kh dat_size lf last p s
      → IsBytes (laws.bytes lf)
      → (log : Log kh dat_size (laws.bytes lf) last p images) → count log < fuel
      → Replays fuel s images
  unfolding count restore
  replay_log-Replays lf last zero p s images h b log enough = absurd (omega arith)
  replay_log-Replays lf last (suc fuel) p s images h b (end _ e) enough =
      stopped_Replays (suc fuel) s
        (end_value fuel s (unfold eof in ground (arith, h.at, h.visitor.last_lem)))
  replay_log-Replays lf last (suc fuel) p s images h b (torn_index _ lo hi) enough =
      stopped_Replays (suc fuel) s
        (stop_value fuel s (going lf last p s h lo) (stop_index lf last p s h hi))
  replay_log-Replays lf last (suc fuel) p s images h b (torn_header _ lo hi) enough =
      stopped_Replays (suc fuel) s (
        stop_value fuel s (going lf last p s h (omega arith)) (
          stop_behind lf last p s h lo (λ r v at.
            read_bulk_short ops laws fresh lf last (p + 8) s.bytes s.bucket r v at (omega arith))))
  replay_log-Replays lf last (suc fuel) p s images h b (torn_body _ lo hi) enough =
      stopped_Replays (suc fuel) s (
        stop_value fuel s (going lf last p s h (omega arith)) (
          stop_behind lf last p s h (omega arith) (λ r v at.
            read_bulk_torn ops laws fresh lf last (p + 8) s.bytes s.bucket r v at (omega arith)
              hi)))
  replay_log-Replays lf last (suc fuel) p s images h b (logged _ rest low sound fits more) enough =
      let (t, h1) = turn ops laws works fresh kh dat_size lf last p s h b low sound fits in
      let (g, e, same, longer) =
        replay_log-Replays lf last fuel _ t rest h1.stands b more (omega arith) in
      (
        g,
        go_on_value fuel s t (going lf last p s h (omega arith)) h1.done ∙ e,
        same ∙ ap (λ k. restore k kh.block_size rest) h1.bytes,
        omega (arith, h1.extent),
      )
