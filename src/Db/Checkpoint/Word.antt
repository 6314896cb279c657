-- ===== src/Db/Checkpoint/Word.antt =====
-- One word of `BlockWriter` and `BlockReader` of src/db/checkpoint_manager.cc.
use graph_store.Prelude.{
  ℕ, suc, ◌-◌, ◌*◌, ◌≤◌, ◌<◌, ◌≡◌, refl, ap, ◌∙◌, sym, arith, leb, ==-ne, true, false, Bool-cases,
  inl, inr, ltb, if◌then◌else◌,
}
use graph_store.Util.Outcome.{done}
use graph_store.Io.Words.{set}
use graph_store.Io.Device
use graph_store.Io.Device.{Device, Buffer}
use graph_store.Db.Checkpoint.Writer as Writer
use graph_store.Db.Checkpoint.Writer.{
  BlockWriter, Written, written, out_of_space, write_uint64, write_words, flush, words_per_block,
}
use graph_store.Db.Checkpoint.Reader as Reader
use graph_store.Db.Checkpoint.Reader.{BlockReader, read_uint64}

leb-le : (a b : ℕ) → a ≤ b → leb a b ≡ true
leb-le a b h = ground arith

leb-lt : (a b : ℕ) → b < a → leb a b ≡ false
leb-lt a b h = ground arith

pub ltb-lt : (a b : ℕ) → a < b → ltb a b ≡ true
ltb-lt a b h = ground arith

pub le_of_leb : (a b : ℕ) → leb a b ≡ true → a ≤ b
le_of_leb a b h = ground arith

pub lt_of_leb : (a b : ℕ) → leb a b ≡ false → b < a
lt_of_leb a b h = ground arith

-- The writer stands in a block of its range, which is on the device.
pub record IsWriting (d : Device) (w : BlockWriter) : Type 0 where
  pub at : w.current.number ≡ w.current_block
  pub inside : w.curr_write ≤ 512
  pub before : w.current_block < w.end_block
  pub on_device : w.end_block ≤ d.size

-- The words that the writer has room for.
abbrev pub room : BlockWriter → ℕ
room w = 512 * (w.end_block - w.current_block) - w.curr_write

-- The reader stands where the writer stands.
pub record IsBeside (d : Device) (r : BlockReader) (w : BlockWriter) : Type 0 where
  pub end_block : r.end_block ≡ w.end_block
  pub current_block : r.current_block ≡ w.current_block
  pub curr_read : r.curr_read ≡ w.curr_write
  pub words : (i : ℕ) → r.current.words i ≡ d.block r.current_block i

-- One word, written by a writer that has room for it.
pub record Wrote (d : Device) (w : BlockWriter) (x : ℕ) (d' : Device) (w' : BlockWriter)
    : Type 0 where
  pub ran : write_uint64 d w x ≡ done (written d' w')
  pub good : IsWriting d' w'
  pub smaller : room w ≡ suc (room w')
  pub end_block : w'.end_block ≡ w.end_block
  pub size : d'.size ≡ d.size
  pub place : w'.curr_write ≡ suc (if leb 512 w.curr_write then 0 else w.curr_write)
  pub block_at :
      w'.current_block ≡ (if leb 512 w.curr_write then suc w.current_block else w.current_block)
  pub stored : w'.current.words (if leb 512 w.curr_write then 0 else w.curr_write) ≡ x
  pub here :
      w.curr_write < 512 → (i : ℕ) → i < w.curr_write → w'.current.words i ≡ w.current.words i
  pub left : 512 ≤ w.curr_write → (i : ℕ) → d'.block w.current_block i ≡ w.current.words i
  pub below : (b i : ℕ) → b < w.current_block → d'.block b i ≡ d.block b i

write_here :
    (d : Device) (w : BlockWriter) (x : ℕ)
    → IsWriting d w
    → w.curr_write < 512
    → (d' : Device) × (w' : BlockWriter) × Wrote d w x d' w'
unfolding write_uint64 Writer.store_word set
write_here d w x h lt =
    let w' : BlockWriter = record w {
      current = record (w.current) { words = set w.current.words w.curr_write x };
      curr_write = suc w.curr_write;
    } in
    (
      d,
      w',
      record {
        ran = ground (arith, h.before, lt);
        good = record {
          at = h.at;
          inside = omega (arith, lt);
          before = h.before;
          on_device = h.on_device;
        };
        smaller = omega (arith, h.before, lt);
        end_block = refl;
        size = refl;
        place = ground (arith, lt);
        block_at = ground (arith, lt);
        stored = ground (arith, lt);
        here = λ _ i less. ground (arith, less);
        left = λ full. absurd (omega (arith, full, lt));
        below = λ b i less. refl;
      },
    )

write_next :
    (d : Device) (w : BlockWriter) (x : ℕ)
    → IsWriting d w
    → 512 ≤ w.curr_write
    → 0 < room w
    → (d' : Device) × (w' : BlockWriter) × Wrote d w x d' w'
unfolding write_uint64 Writer.read_block Writer.store_word set Device.get Device.write
write_next d w x h full more =
    let fresh : Buffer = record { number = suc w.current_block; words = set (λ i. 0) 0 x } in
    let w' : BlockWriter = record w {
      current_block = suc w.current_block;
      current = fresh;
      curr_write = 1;
    } in
    let next : suc w.current_block < w.end_block = omega (arith, h.inside, full, more) in
    (
      Device.write d w.current,
      w',
      record {
        ran = rw (leb-lt w.end_block w.current_block h.before) (
            rw (leb-le 512 w.curr_write full) (
              rw (==-ne (suc w.current_block) w.end_block (λ e. absurd (omega (arith, e, next)))) (
                rw (ltb-lt (suc w.current_block) d.size (omega (arith, next, h.on_device))) refl)));
        good = record { at = refl; inside = omega arith; before = next; on_device = h.on_device };
        smaller = omega (arith, h.inside, full, more);
        end_block = refl;
        size = refl;
        place = ground (arith, full);
        block_at = ground (arith, full);
        stored = ground (arith, full);
        here = λ lt. absurd (omega (arith, full, lt));
        left = λ _ i. ground (arith, h.at);
        below = λ b i less. ground (arith, h.at, less);
      },
    )

pub write_word :
    (d : Device) (w : BlockWriter) (x : ℕ)
    → IsWriting d w
    → 0 < room w
    → (d' : Device) × (w' : BlockWriter) × Wrote d w x d' w'
write_word d w x h more = elim (Bool-cases (leb 512 w.curr_write)) [
  | inl full ↦ write_next d w x h (le_of_leb 512 w.curr_write full) more
  | inr lt ↦ write_here d w x h (lt_of_leb 512 w.curr_write lt)
]

module _ (d : Device) (w : BlockWriter) (x : ℕ) (d' : Device) (w' : BlockWriter)
    (one : Wrote d w x d' w') (h : IsWriting d w) (e : Device)
    (value : e.block w'.current_block (if leb 512 w.curr_write then 0 else w.curr_write) ≡ x)
    (r : BlockReader) (b : IsBeside e r w) where
  -- A reader beside the writer reads the word.
  abbrev pub Read : Type 0
  Read = (r' : BlockReader) × (read_uint64 e r ≡ done (r', x)) × IsBeside e r' w'

  pub read_here : leb 512 w.curr_write ≡ false → Read
  unfolding read_uint64 Reader.load_word
  read_here lt =
      let seen : r.current.words r.curr_read ≡ x =
        b.words r.curr_read
        ∙ ap (λ i. e.block r.current_block i) b.curr_read
        ∙ ap (λ n. e.block n w.curr_write) (b.current_block ∙ sym (one.block_at ∙ rw lt refl))
        ∙ (rw lt refl ∙ value) in
      let r' : BlockReader = record r { curr_read = suc r.curr_read } in
      (
        r',
        rw
            (ltb-lt r.current_block r.end_block
              (omega (arith, b.current_block, b.end_block, h.before)))
            (rw (ap (λ i. leb 512 i) b.curr_read ∙ lt) (ap (λ v. done (r', v)) seen)),
        record {
          end_block = b.end_block ∙ sym one.end_block;
          current_block = b.current_block ∙ sym (one.block_at ∙ rw lt refl);
          curr_read = ap (λ i. suc i) b.curr_read ∙ sym (one.place ∙ rw lt refl);
          words = b.words;
        },
      )

  pub read_next : leb 512 w.curr_write ≡ true → suc w.current_block < e.size → Read
  unfolding read_uint64 Reader.read_block Reader.load_word Device.get
  read_next full next =
      let there : suc r.current_block ≡ w'.current_block =
        ap (λ i. suc i) b.current_block ∙ sym (one.block_at ∙ rw full refl) in
      let seen : e.block (suc r.current_block) 0 ≡ x =
        ap (λ n. e.block n 0) there ∙ (rw full refl ∙ value) in
      let r' : BlockReader = record {
        end_block = r.end_block;
        current_block = suc r.current_block;
        current = record { number = suc r.current_block; words = e.block (suc r.current_block) };
        curr_read = 1;
      } in
      (
        r',
        rw
            (ltb-lt r.current_block r.end_block
              (omega (arith, b.current_block, b.end_block, h.before)))
            (rw (ap (λ i. leb 512 i) b.curr_read ∙ full) (
              rw (ltb-lt (suc r.current_block) e.size (omega (arith, b.current_block, next)))
                (ap (λ v. done (r', v)) seen))),
        record {
          end_block = b.end_block ∙ sym one.end_block;
          current_block = there;
          curr_read = sym (one.place ∙ rw full refl);
          words = λ i. refl;
        },
      )
