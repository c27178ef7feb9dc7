-- ===== src/PageAllocator/Trim.antt =====
-- The loop that halves a region down to the wanted depth.
use pinyon.Prelude.{
  ℕ, zero, suc, ◌+◌, ◌^◌, ◌≤◌, ◌<◌, ◌≡◌, refl, ◌⊎◌, inl, inr, ap, ◌∙◌, arith, true, false, ◌==◌,
  Bool-cases, Option-cases, ==_iff, Option, none, some, two_pow-suc,
}
use pinyon.Region.{Region, words, inside, halve}
use pinyon.Region.Halves.{inside-halve}
use pinyon.PageAllocator.{Backend, max_depth, pred_word, insert_node, create_node, trim_loop}
use pinyon.PageAllocator.Nodes.{Node, NodeAllocator}
use pinyon.PageAllocator.Invariant.{cover, Inv, spare, refused, released, release}

-- The two halves of a region, in either order.
abbrev pub AreHalves : Region → Region → Region → Type 0
AreHalves r kept freed =
    ((kept ≡ (halve r).0) × (freed ≡ (halve r).1)) ⊎ ((kept ≡ (halve r).1) × (freed ≡ (halve r).0))

-- The halves of `2 ^ suc d` pages are `2 ^ d` pages each, and share the pages among them.
AreHalves_lem :
    (r kept freed : Region) (d : ℕ)
    → AreHalves r kept freed
    → r.length ≡ 2 ^ suc d
    → r.offset + r.length < words
    → (kept.length ≡ 2 ^ d)
      × (freed.length ≡ 2 ^ d)
      × (kept.offset + kept.length < words)
      × (freed.offset + freed.length < words)
      × ((p : ℕ) → inside p kept + inside p freed ≡ inside p r)
unfolding halve
AreHalves_lem r kept freed d (inl (k, f)) e small =
    rw (k, f)
      (
        omega (arith, two_pow-suc d),
        omega (arith, two_pow-suc d),
        omega arith,
        omega arith,
        λ p. inside-halve r small p,
      )
AreHalves_lem r kept freed d (inr (k, f)) e small =
    rw (k, f)
      (
        omega (arith, two_pow-suc d),
        omega (arith, two_pow-suc d),
        omega arith,
        omega arith,
        λ p. omega (arith, inside-halve r small p),
      )

-- One round of the loop, case by case.
module _ {S : Type 0} (nodes : NodeAllocator S) (pick : Region → Option (Region × Region))
    (fuel : ℕ) (r : Region) (depth end : ℕ) (b : Backend S) where
  trim_stop :
      (depth == end) ≡ true → trim_loop nodes pick (suc fuel) r depth end b ≡ some ((r, depth), b)
  unfolding trim_loop
  trim_stop e = rw (e, trim_loop)

  module _ (more : (depth == end) ≡ false) where
    trim_break :
        pick r ≡ none → trim_loop nodes pick (suc fuel) r depth end b ≡ some ((r, depth), b)
    unfolding trim_loop
    trim_break broke = rw (more, broke, trim_loop)

    module _ {kept freed : Region} (picked : pick r ≡ some (kept, freed)) {b' : Backend S} where
      trim_refused :
          create_node nodes freed b ≡ some (none, b')
          → trim_loop nodes pick (suc fuel) r depth end b ≡ some ((r, pred_word depth), b')
      unfolding trim_loop
      trim_refused made = rw (more, picked, made, trim_loop)

      trim_go :
          {at : ℕ} {node : Node} {b'' : Backend S} (under : ℕ)
          → create_node nodes freed b ≡ some (some (at, node), b')
          → pred_word depth ≡ under
          → insert_node under node b' ≡ some b''
          → trim_loop nodes pick (suc fuel) r depth end b
            ≡ trim_loop nodes pick fuel kept under end b''
      unfolding trim_loop
      trim_go under made e put = rw (more, picked, made, e, put, trim_loop)

module _ {S : Type 0} (nodes : NodeAllocator S) (pick : Region → Option (Region × Region))
    (Q : Region → Type 0)
    (pick_halves : (r kept freed : Region)
      → Q r
      → pick r ≡ some (kept, freed)
      → AreHalves r kept freed × Q kept) where
  -- The end of the loop: the region kept, with two to the power `exponent` of pages.
  pub record Trimmed (b : Backend S) (r : Region) (start end : ℕ) (res : Region × ℕ)
      (b' : Backend S) : Type 0 where
    pub inv : Inv nodes b'
    pub conserved :
        (p : ℕ) → cover p b'.free_lists + inside p res.0 ≡ cover p b.free_lists + inside p r
    pub within : (p : ℕ) → inside p res.0 ≤ inside p r
    pub exponent : ℕ
    pub power : res.0.length ≡ 2 ^ exponent
    pub in_word : res.0.offset + res.0.length < words
    pub at_least : end ≤ exponent
    pub at_most : exponent ≤ start
    pub keeps : Q res.0
    -- Why it stopped: at the wanted depth, by `pick`, or because the node allocator refused.
    pub stopped :
        ((exponent ≡ end) × (res.1 ≡ end))
        ⊎ ((pick res.0 ≡ none) × (res.1 ≡ exponent))
        ⊎ ((s : S) × (t : S) × nodes.IsValid s × (nodes.allocate s ≡ some (none, t)))

  Trimmed-here :
      (b b' : Backend S) (r : Region) (d end at : ℕ)
      → Inv nodes b'
      → b'.free_lists ≡ b.free_lists
      → end ≤ d
      → r.length ≡ 2 ^ d
      → r.offset + r.length < words
      → Q r
      → ((d ≡ end) × (at ≡ end))
        ⊎ ((pick r ≡ none) × (at ≡ d))
        ⊎ ((s : S) × (t : S) × nodes.IsValid s × (nodes.allocate s ≡ some (none, t)))
      → Trimmed b r d end (r, at) b'
  Trimmed-here b b' r d end at inv same down e small q why = record {
    inv = inv;
    conserved = λ p. ap (λ lists. cover p lists + inside p r) same;
    within = λ p. omega arith;
    exponent = d;
    power = e;
    in_word = small;
    at_least = down;
    at_most = omega arith;
    keeps = q;
    stopped = why;
  }

  Trimmed-step :
      (b b' b'' : Backend S) (r kept freed : Region) (d end : ℕ) (res : Region × ℕ)
      → ((p : ℕ) → inside p kept + inside p freed ≡ inside p r)
      → ((p : ℕ) → cover p b'.free_lists ≡ cover p b.free_lists + inside p freed)
      → Trimmed b' kept d end res b''
      → Trimmed b r (suc d) end res b''
  Trimmed-step b b' b'' r kept freed d end res shared more rest = record {
    inv = rest.inv;
    conserved = λ p. omega (arith, rest.conserved p, more p, shared p);
    within = λ p. omega (arith, rest.within p, shared p);
    exponent = rest.exponent;
    power = rest.power;
    in_word = rest.in_word;
    at_least = rest.at_least;
    at_most = omega (arith, rest.at_most);
    keeps = rest.keeps;
    stopped = rest.stopped;
  }

  pub trim_loop-Trimmed :
      (fuel : ℕ) (r : Region) (depth end : ℕ) (b : Backend S)
      → depth < fuel
      → Inv nodes b
      → end ≤ depth
      → depth ≤ max_depth
      → depth ≤ spare nodes b + end
      → r.length ≡ 2 ^ depth
      → r.offset + r.length < words
      → Q r
      → (res : Region × ℕ) × (b' : Backend S) × (trim_loop nodes pick fuel r depth end b
          ≡ some (res, b'))
        × Trimmed b r depth end res b'
  trim_loop-Trimmed zero r depth end b f inv down top room e small q = absurd (omega arith)
  trim_loop-Trimmed (suc fuel) r zero end b f inv down top room e small q =
      let at : 0 ≡ end = omega arith in
      (
        (r, 0),
        b,
        trim_stop nodes pick fuel r 0 end b (ground arith),
        Trimmed-here b b r 0 end 0 inv refl down e small q (inl (at, at)),
      )
  trim_loop-Trimmed (suc fuel) r (suc d) end b f inv down top room e small q =
      elim (Bool-cases (suc d == end)) [
        | inl done ↦
            let at : suc d ≡ end = (==_iff (suc d) end).0 done in
            (
              (r, suc d),
              b,
              trim_stop nodes pick fuel r (suc d) end b done,
              Trimmed-here b b r (suc d) end (suc d) inv refl down e small q (inl (at, at)),
            )
        | inr more ↦ elim (Option-cases (pick r)) [
          | inl broke ↦ (
            (r, suc d),
            b,
            trim_break nodes pick fuel r (suc d) end b more broke,
            Trimmed-here b b r (suc d) end (suc d) inv refl down e small q
                (inr (inl (broke, refl))),
          )
          | inr ((kept, freed), picked) ↦
              let (halves, q') = pick_halves r kept freed q picked in
              let (ek, ef, ik, if', shared) = AreHalves_lem r kept freed d halves e small in
              let under : pred_word (suc d) ≡ d = omega arith in
              elim (release nodes d freed b inv (ground arith) (omega arith) ef if') [
                | refused b' made why inv' same sp ↦ (
                  (r, pred_word (suc d)),
                  b',
                  trim_refused nodes pick fuel r (suc d) end b more picked made,
                  Trimmed-here b b' r (suc d) end _ inv' same down e small q
                      (inr (inr (b.node_allocator, why.0, inv.valid, why.1))),
                )
                | released node b' b'' made put inv' more' sp ↦
                    let (res, last, run, rest) =
                      trim_loop-Trimmed fuel kept d end b'' (omega arith) inv' (ground arith)
                        (omega arith) (omega arith) ek ik q' in
                    (
                      res,
                      last,
                      trim_go nodes pick fuel r (suc d) end b more picked d made under put ∙ run,
                      Trimmed-step b b'' last r kept freed d end res shared more' rest,
                    )
              ]
        ]
      ]
