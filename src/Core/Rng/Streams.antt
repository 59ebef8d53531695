-- ===== src/Core/Rng/Streams.antt =====
-- `RngStreams` of core/src/rng.cpp: each name has a stream of its own.
use sentinel_public.Prelude.{ℕ, ◌≡◌, refl, subst, ok, >>=-eq-ok, if◌then◌else◌, arith}
use sentinel_public.Prelude.Text.{Text, text_eq, text_eq_sound}
use sentinel_public.Prelude.Int.{ℤ}
use sentinel_public.Core.Rng.{
  Entry, RngStreams, stream, stream_seed, lower_bound, rng_at, set_rng, draw_from, uniform, Draw,
}
use sentinel_public.Core.Rng.Entries.{
  IsOrdered, find_rng, or_seed, ensure, placed-eq-ensure, ensure-IsOrdered, find_rng-ensure,
  find_rng-set, rng_at-ensure, set_rng-IsOrdered,
}

-- The state that the stream of a name has, or would start with.
pub peek : RngStreams → Text → ℕ
peek streams name = or_seed (find_rng streams.entries name) (stream_seed streams.root_seed name)

module _ (streams : RngStreams) (name : Text) where
  entry : Entry
  entry = record { name = name; rng = stream_seed streams.root_seed name }

  stream-entries : (stream streams name).0.entries ≡ ensure streams.entries entry
  unfolding stream entry
  stream-entries = ground (arith, placed-eq-ensure streams.entries entry)

  stream-root : (stream streams name).0.root_seed ≡ streams.root_seed
  unfolding stream
  stream-root = ground arith

  stream-index : (stream streams name).1 ≡ lower_bound streams.entries name
  unfolding stream
  stream-index = ground arith

  module _ (o : IsOrdered streams.entries) where
    -- Looking a stream up keeps the entries in order.
    pub stream-IsOrdered : IsOrdered (stream streams name).0.entries
    stream-IsOrdered = rw stream-entries (ensure-IsOrdered streams.entries entry o)

    -- The reference is to the state that the stream has, or to its seed.
    pub stream_at :
        rng_at (stream streams name).0.entries (stream streams name).1 0 ≡ peek streams name
    unfolding entry peek
    stream_at = rw (stream-entries, stream-index) (rng_at-ensure streams.entries entry o)

    -- A look-up moves no stream, not even its own.
    pub peek-stream : (other : Text) → peek (stream streams name).0 other ≡ peek streams other
    unfolding entry peek
    peek-stream other =
        rw (stream-entries, stream-root, find_rng-ensure streams.entries entry other o)
          (ground (arith, text_eq_sound name other))

-- What a successful draw from a stream does: it is a draw of `uniform` from that stream's state, it
-- moves that stream alone, and the entries stay in order.
pub record IsIsolated (streams : RngStreams) (name : Text) (lo hi value : ℤ) (after : RngStreams)
    : Type 0 where
  pub draw : Draw ℤ
  pub drawn : uniform (peek streams name) lo hi ≡ ok draw
  pub same_value : value ≡ draw.value
  pub moved :
      (other : Text)
      → peek after other ≡ (if text_eq name other then draw.state else peek streams other)
  pub ordered : IsOrdered after.entries

module _ (streams : RngStreams) (name : Text) (lo hi : ℤ) (o : IsOrdered streams.entries) where
  abbrev drawn_streams : Draw ℤ → RngStreams
  drawn_streams d =
      let r = stream streams name in record r.0 { entries = set_rng r.0.entries r.1 d.state }

  peek-drawn :
      (d : Draw ℤ) (other : Text)
      → peek (drawn_streams d) other ≡ (if text_eq name other then d.state else peek streams other)
  unfolding peek entry
  peek-drawn d other =
      rw
        (
          stream-entries streams name,
          stream-root streams name,
          stream-index streams name,
          find_rng-set streams.entries (entry streams name) d.state other o,
        )
        (ground arith)

  drawn-IsIsolated :
      (d : Draw ℤ)
      → uniform (peek streams name) lo hi ≡ ok d
      → IsIsolated streams name lo hi d.value (drawn_streams d)
  drawn-IsIsolated d e = record {
    draw = d;
    drawn = e;
    same_value = refl;
    moved = peek-drawn d;
    ordered = set_rng-IsOrdered _ _ d.state (stream-IsOrdered streams name o);
  }

  -- On streams in order, a draw that returns is a draw of `uniform` from the state of the named stream,
  -- it leaves the states of all others, and the streams stay in order.
  pub draw_from-IsIsolated :
      (value : ℤ) (after : RngStreams)
      → draw_from streams name lo hi ≡ ok (value, after)
      → IsIsolated streams name lo hi value after
  unfolding draw_from
  draw_from-IsIsolated value after e =
      let r =
        >>=-eq-ok (uniform (rng_at (stream streams name).0.entries (stream streams name).1 0) lo hi)
          (λ d. ok (d.value, drawn_streams d)) e in
      let same : ◌≡◌ {A = ℤ × RngStreams} (r.0.value, drawn_streams r.0) (value, after) = cc in
      subst (λ p. IsIsolated streams name lo hi p.0 p.1) same
        (drawn-IsIsolated r.0 (rw (stream_at streams name o) at r.1))
