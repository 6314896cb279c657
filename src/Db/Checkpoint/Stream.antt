-- ===== src/Db/Checkpoint/Stream.antt =====
-- `BlockWriter` and `BlockReader` of src/db/checkpoint_manager.cc: what is written is read back.
use graph_store.Prelude.{
  ℕ, suc, ◌≤◌, ◌<◌, ◌≡◌, refl, ap, ◌∙◌, sym, List, [], ◌∷◌, arith, leb, length, true, false,
  Bool-cases, inl, inr, if◌then◌else◌,
}
use graph_store.Util.Outcome.{done}
use graph_store.Io.Device
use graph_store.Io.Device.{Device, Buffer}
use graph_store.Db.Checkpoint.Writer as Writer
use graph_store.Db.Checkpoint.Writer.{
  BlockWriter, Written, written, out_of_space, write_uint64, write_words, flush, words_per_block,
}
use graph_store.Db.Checkpoint.Reader as Reader
use graph_store.Db.Checkpoint.Reader.{BlockReader, read_uint64}
use graph_store.Db.Checkpoint.Word.{
  IsWriting, IsBeside, room, Wrote, write_word, read_here, read_next, le_of_leb, lt_of_leb, ltb-lt,
}

-- The reader gives these words.
abbrev pub Reads : Device → BlockReader → List ℕ → Type 0
Reads d r [] = Unit
Reads d r (x ∷ xs) = (r' : BlockReader) × (read_uint64 d r ≡ done (r', x)) × Reads d r' xs

-- What the writer leaves: the words before its place stand on the device, the blocks before its own
-- are as they were, and a reader beside it gives the words that it was given.
pub record Kept (d : Device) (w : BlockWriter) (end : Device) : Type 0 where
  pub size : end.size ≡ d.size
  pub here : (i : ℕ) → i < w.curr_write → end.block w.current_block i ≡ w.current.words i
  pub below : (b i : ℕ) → b < w.current_block → end.block b i ≡ d.block b i

-- Every device with the same blocks from the writer's on gives its words to a reader beside it.
abbrev pub ReadBack : Device → BlockWriter → List ℕ → Device → Type 0
ReadBack d w ws end =
    (e : Device)
    → e.size ≡ d.size
    → ((b i : ℕ) → w.current_block ≤ b → e.block b i ≡ end.block b i)
    → (r : BlockReader) → IsBeside e r w
    → Reads e r ws

module _ (d : Device) (w : BlockWriter) (x : ℕ) (d1 : Device) (w1 : BlockWriter)
    (one : Wrote d w x d1 w1) (h : IsWriting d w) (end : Device) (kept : Kept d1 w1 end) where
  block_full : leb 512 w.curr_write ≡ true → w1.current_block ≡ suc w.current_block
  block_full full = one.block_at ∙ rw full refl

  place_here : leb 512 w.curr_write ≡ false → w1.curr_write ≡ suc w.curr_write
  place_here lt = one.place ∙ rw lt refl

  here_after : (i : ℕ) → i < w.curr_write → end.block w.current_block i ≡ w.current.words i
  here_after i less = elim (Bool-cases (leb 512 w.curr_write)) [
    | inl full ↦
        kept.below w.current_block i (omega (arith, block_full full))
        ∙ one.left (le_of_leb 512 w.curr_write full) i
    | inr lt ↦
        ap (λ n. end.block n i) (sym (one.block_at ∙ rw lt refl))
        ∙ kept.here i (omega (arith, less, place_here lt))
        ∙ one.here (lt_of_leb 512 w.curr_write lt) i less
  ]

  -- A reader beside the writer reads the word and stands beside the writer after it.
  one_back :
      (e : Device)
      → e.size ≡ d.size
      → ((b i : ℕ) → w.current_block ≤ b → e.block b i ≡ end.block b i)
      → (r : BlockReader) → IsBeside e r w
      → (r' : BlockReader) × (read_uint64 e r ≡ done (r', x)) × IsBeside e r' w1
  one_back e size same r beside =
      let i : ℕ = if leb 512 w.curr_write then 0 else w.curr_write in
      let value : e.block w1.current_block i ≡ x =
        same w1.current_block i (ground (arith, one.block_at))
        ∙ kept.here i (omega (arith, one.place))
        ∙ one.stored in
      elim (Bool-cases (leb 512 w.curr_write)) [
        | inl full ↦
            read_next d w x d1 w1 one h e value r beside full
              (omega (arith, one.good.before, one.good.on_device, one.size, size, block_full full))
        | inr lt ↦ read_here d w x d1 w1 one h e value r beside lt
      ]

pub write_words_lem :
    (d : Device) (w : BlockWriter) (ws : List ℕ)
    → IsWriting d w
    → length ws ≤ room w
    → (d' : Device) × (w' : BlockWriter) × (write_words d w ws ≡ done (written d' w'))
      × Kept d w (flush d' w')
      × ReadBack d w ws (flush d' w')
unfolding write_words flush Device.write
write_words_lem d w [] h fits = (
  d,
  w,
  refl,
  record {
    size = refl;
    here = λ i less. ground (arith, h.at);
    below = λ b i less. ground (arith, h.at, less);
  },
  λ e size same r beside. tt,
)
write_words_lem d w (x ∷ ws) h fits =
    let (d1, w1, one) = write_word d w x h (omega (arith, fits)) in
    let (d', w', ran, kept, back) =
      write_words_lem d1 w1 ws one.good (omega (arith, fits, one.smaller)) in
    (
      d',
      w',
      rw one.ran ran,
      record {
        size = kept.size ∙ one.size;
        here = here_after d w x d1 w1 one h (flush d' w') kept;
        below =
            λ b i less. kept.below b i (ground (arith, less, one.block_at)) ∙ one.below b i less;
      },
      λ e size same r beside.
          let (r', read, next) =
            one_back d w x d1 w1 one h (flush d' w') kept e size same r beside in
          (
            r',
            read,
            back e (size ∙ sym one.size) (λ b i le. same b i (ground (arith, le, one.block_at))) r'
                next,
          ),
    )

-- The writer at the start of its range.
pub record IsNew (start stop : ℕ) (w : BlockWriter) : Type 0 where
  pub current_block : w.current_block ≡ start
  pub curr_write : w.curr_write ≡ 0
  pub end_block : w.end_block ≡ stop

module _ (start end_block : ℕ) (before : start < end_block) where
  pub new_writer_lem :
      (d : Device)
      → end_block ≤ d.size
      → (d' : Device) × (w : BlockWriter) × (Writer.new_writer d start end_block ≡ done (d', w))
        × IsWriting d' w
        × IsNew start end_block w
        × (d'.size ≡ d.size)
        × ((b i : ℕ) → b < start → d'.block b i ≡ d.block b i)
  unfolding Writer.new_writer Writer.read_block Device.get Device.write
  new_writer_lem d on =
      let first : Buffer = record { number = start; words = d.block start } in
      let w : BlockWriter = record {
        end_block = end_block;
        current_block = start;
        current = record { number = start; words = λ i. 0 };
        curr_write = 0;
      } in
      (
        Device.write d first,
        w,
        rw (ltb-lt start d.size (omega (arith, before, on))) refl,
        record { at = refl; inside = omega arith; before = before; on_device = on },
        record { current_block = refl; curr_write = refl; end_block = refl },
        refl,
        λ b i lt. ground (arith, lt),
      )

  pub new_reader_lem :
      (e : Device) (w : BlockWriter)
      → end_block ≤ e.size
      → IsNew start end_block w
      → (r : BlockReader) × (Reader.new_reader e start end_block ≡ done r) × IsBeside e r w
  unfolding Reader.new_reader Reader.read_block Device.get
  new_reader_lem e w on new =
      let r : BlockReader = record {
        end_block = end_block;
        current_block = start;
        current = record { number = start; words = e.block start };
        curr_read = 0;
      } in
      (
        r,
        rw (ltb-lt start e.size (omega (arith, before, on))) refl,
        record {
          end_block = sym new.end_block;
          current_block = sym new.current_block;
          curr_read = sym new.curr_write;
          words = λ i. refl;
        },
      )
