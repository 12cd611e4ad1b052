-- ===== src/Block/Io/Effects.antt =====
-- What a single read or write of src/linux_subsystem/block/block.c has done when it returns.
use kobox.Prelude.{
  Bool-cases, Option-cases, add64, arith, false, inl, inr, pos, refl, some, true, ℕ, ◌==◌, ◌≡◌, ◌≢◌,
  ◌≤◌, ◌⊎◌,
}
use kobox.Block.State.{Block, DiskState, disk_state_for}
use kobox.Block.State.Laws.{disk_state_for-with_disk}
use kobox.Block.Io.{
  Request, Driver, is_gone, account_read, account_write, disk_read, disk_write_flags, write_through,
}
use kobox.Block.Io.Range.{InRange, InRange-of_zero}

module _ {W : Type 0} (d : Driver W) (disk : ℕ) (r : Request) (b : Block) (w : W) where
  -- The disk is known, registered and alive, and the request is a range on it.
  pub record Accepted (s : DiskState) : Type 0 where
    pub found : disk_state_for b disk ≡ some s
    pub has_buffer : r.buffer ≢ 0
    pub present : is_gone s ≡ false
    pub in_range : InRange b s r.sector r.byte_count

  -- A read that returns 0 was accepted, is what the driver's read function did and answered with
  -- 0, and adds one read and its bytes to the disk's counters.
  pub disk_read_done :
      {b' : Block} {w' : W}
      → disk_read d disk r b w ≡ (pos 0, b', w')
      → (s : DiskState) × Accepted s
        × (s.read_fn ≢ 0)
        × (d.read s.read_fn s.io_ctx r w ≡ (pos 0, w'))
        × (disk_state_for b' disk ≡ some (account_read 1 (add64 s.bytes_read r.byte_count) s))
  unfolding disk_read
  disk_read_done {b'} {w'} h = elim (Option-cases (disk_state_for b disk)) [
    | inl e ↦ absurd (ground arith)
    | inr (s, e) ↦ (
      s,
      record {
        found = e;
        has_buffer = ground arith;
        present = ground arith;
        in_range = InRange-of_zero b s r.sector r.byte_count (ground arith);
      },
      ground arith,
      ground arith,
      ground (
        arith,
        disk_state_for-with_disk disk (λ t. account_read 1 (add64 t.bytes_read r.byte_count) t) b
            (λ t. refl),
      ),
    )
  ]

  -- A read that does not return 0 leaves the block layer's state as it was.
  disk_read_failed : (disk_read d disk r b w).0 ≢ pos 0 → (disk_read d disk r b w).1 ≡ b
  unfolding disk_read
  disk_read_failed h = ground arith

  flags_le :
      (s : DiskState)
      → disk_state_for b disk ≡ some s
      → (flags : ℕ) {b' : Block} {w' : W} → disk_write_flags d disk r flags b w ≡ (pos 0, b', w')
      → flags ≤ 1
  unfolding disk_write_flags
  flags_le s e flags h = ground arith

  write_flags_call :
      (s : DiskState)
      → disk_state_for b disk ≡ some s
      → (flags : ℕ) {b' : Block} {w' : W} → disk_write_flags d disk r flags b w ≡ (pos 0, b', w')
      → write_through d s r flags w ≡ (pos 0, w')
  unfolding disk_write_flags
  write_flags_call s e flags h = ground arith

  has_write_fn :
      (s : DiskState)
      → disk_state_for b disk ≡ some s
      → (flags : ℕ) {b' : Block} {w' : W} → disk_write_flags d disk r flags b w ≡ (pos 0, b', w')
      → s.write_flags_fn ≡ 0
      → s.write_fn ≢ 0
  unfolding disk_write_flags
  has_write_fn s e flags h z = ground arith

  abbrev pub Through : DiskState → ℕ → W → Type 0
  Through s flags w' =
      ((s.write_flags_fn ≢ 0) × (d.write_flags s.write_flags_fn s.io_ctx r flags w ≡ (pos 0, w')))
      ⊎ ((s.write_flags_fn ≡ 0)
          × (s.write_fn ≢ 0)
          × (flags ≡ 0)
          × (d.write s.write_fn s.io_ctx r w ≡ (pos 0, w')))
      ⊎ ((s.write_flags_fn ≡ 0)
          × (s.write_fn ≢ 0)
          × (flags ≡ 1)
          × (s.flush_fn ≢ 0)
          × ((d.write s.write_fn s.io_ctx r w).0 ≡ pos 0)
          × (d.flush s.flush_fn s.io_ctx (d.write s.write_fn s.io_ctx r w).1 ≡ (pos 0, w')))

  through :
      (s : DiskState) (flags : ℕ) {w' : W}
      → write_through d s r flags w ≡ (pos 0, w')
      → flags ≤ 1
      → (s.write_flags_fn ≡ 0 → s.write_fn ≢ 0)
      → Through s flags w'
  unfolding write_through
  through s flags {w'} h le has = elim (Bool-cases (s.write_flags_fn == 0)) [
    | inr e ↦ inl (ground arith, ground arith)
    | inl e ↦ elim (Bool-cases (flags == 0)) [
      | inl z ↦ inr (inl (ground arith, has (ground arith), ground arith, ground arith))
      | inr z ↦ inr (
          inr (
            ground arith,
            has (ground arith),
            ground arith,
            ground arith,
            ground arith,
            ground arith,
          ))
    ]
  ]

  -- A write that returns 0 was accepted on a disk that is not read-only, counts one write and its
  -- bytes, and reached the driver: through its write_flags function with the flags passed on, or
  -- through its write function, none of them NULL where it is called; with the FUA flag and no write_flags function, a flush that
  -- returned 0 followed the write.
  pub disk_write_flags_done :
      (flags : ℕ) {b' : Block} {w' : W}
      → disk_write_flags d disk r flags b w ≡ (pos 0, b', w')
      → (s : DiskState) × Accepted s
        × (s.read_only ≡ 0)
        × (flags ≤ 1)
        × (disk_state_for b' disk ≡ some (account_write 1 (add64 s.bytes_written r.byte_count) s))
        × Through s flags w'
  unfolding disk_write_flags
  disk_write_flags_done flags {b'} {w'} h = elim (Option-cases (disk_state_for b disk)) [
    | inl e ↦ absurd (ground arith)
    | inr (s, e) ↦ (
      s,
      record {
        found = e;
        has_buffer = ground arith;
        present = ground arith;
        in_range = InRange-of_zero b s r.sector r.byte_count (ground arith);
      },
      ground arith,
      ground arith,
      ground (
        arith,
        disk_state_for-with_disk disk (λ t. account_write 1 (add64 t.bytes_written r.byte_count) t)
            b (λ t. refl),
      ),
      through s flags (write_flags_call s e flags h) (flags_le s e flags h)
          (has_write_fn s e flags h),
    )
  ]

  -- A disk that is read-only, dead or not registered refuses every write: no driver function is
  -- called and nothing is counted.
  disk_write_flags_refused :
      (flags : ℕ) (s : DiskState)
      → disk_state_for b disk ≡ some s
      → (s.read_only ≢ 0) ⊎ (is_gone s ≡ true)
      → ((disk_write_flags d disk r flags b w).0 ≢ pos 0)
        × ((disk_write_flags d disk r flags b w).1 ≡ b)
        × ((disk_write_flags d disk r flags b w).2 ≡ w)
  unfolding disk_write_flags
  disk_write_flags_refused flags s e h = ground arith
