-- ===== src/Usage/Laws.antt =====
-- src/thread_usage.h: what each operation does, with `uses_threads` set or not.
use libult.Base.{
  ℕ, ◌≡◌, ◌≢◌, refl, ◌<◌, ◌^◌, ◌%◌, ◌+◌, ◌-◌, Bool, true, false, arith, ◌==◌, if◌then◌else◌,
  Bool-cases, ap, inl, inr, add_word, sub_word,
}
use libult.Usage.{
  Op, add, sub, operator, Atomics, IsAtomic, thread_op_fetch, thread_fetch_op,
  thread_compare_exchange_strong, thread_swap,
}

module _ {at : Atomics} (ok : IsAtomic at) (u : Bool) where
  pub thread_op_fetch-eq :
      (op : Op) (w c d : ℕ) → thread_op_fetch at u op w c d ≡ (operator op w c d, operator op w c d)
  unfolding thread_op_fetch
  thread_op_fetch-eq op w c d = elim (Bool-cases u) [
    | inl e ↦ rw e (ok.op_fetch-eq op w c d)
    | inr e ↦ rw e
  ]

  pub thread_fetch_op-eq :
      (op : Op) (w c d : ℕ) → thread_fetch_op at u op w c d ≡ (operator op w c d, c)
  unfolding thread_fetch_op
  thread_fetch_op-eq op w c d = elim (Bool-cases u) [
    | inl e ↦ rw e (ok.fetch_op-eq op w c d)
    | inr e ↦ rw e
  ]

  pub thread_compare_exchange_strong-eq :
      (c e v : ℕ)
      → thread_compare_exchange_strong at u c e v ≡ (if c == e then (true, v, e) else (false, c, c))
  unfolding thread_compare_exchange_strong
  thread_compare_exchange_strong-eq c e v = elim (Bool-cases u) [
    | inl h ↦ rw h (ok.compare_exchange_strong-eq c e v)
    | inr h ↦ rw h
  ]

  pub thread_swap-eq : (c v : ℕ) → thread_swap at u c v ≡ (v, c)
  unfolding thread_swap
  thread_swap-eq c v = elim (Bool-cases u) [ inl h ↦ rw h (ok.swap-eq c v) | inr h ↦ rw h ]

wrap_back : (m c d : ℕ) → c < m → d < m → ((c + d) % m + m - d) % m ≡ c
wrap_back m c d hc hd = grind arith

wrap_forth : (m c d : ℕ) → c < m → d < m → ((c + m - d) % m + d) % m ≡ c
wrap_forth m c d hc hd = grind arith

module _ {at : Atomics} (ok : IsAtomic at) (u : Bool) where
  -- Whether or not threads are in use, `thread_OP_fetch_W`, `thread_fetch_OP_W`, the
  -- compare-exchange and the swap do the same as in the other mode; of the first two, which leave
  -- the same cell, one returns the new content of the cell and one the old. It supposes that the
  -- processor's operations do what is documented of them.
  pub thread_op_transparent :
      (v : Bool) (op : Op) (w c d e : ℕ)
      → (thread_op_fetch at u op w c d ≡ thread_op_fetch at v op w c d)
        × (thread_fetch_op at u op w c d ≡ thread_fetch_op at v op w c d)
        × (thread_compare_exchange_strong at u c e d ≡ thread_compare_exchange_strong at v c e d)
        × (thread_swap at u c d ≡ thread_swap at v c d)
        × ((thread_op_fetch at u op w c d).0 ≡ (thread_fetch_op at u op w c d).0)
        × ((thread_op_fetch at u op w c d).1 ≡ (thread_op_fetch at u op w c d).0)
        × ((thread_fetch_op at u op w c d).1 ≡ c)
  thread_op_transparent v op w c d e =
      rw
        (
          thread_op_fetch-eq ok u op w c d,
          thread_op_fetch-eq ok v op w c d,
          thread_fetch_op-eq ok u op w c d,
          thread_fetch_op-eq ok v op w c d,
          thread_compare_exchange_strong-eq ok u c e d,
          thread_compare_exchange_strong-eq ok v c e d,
          thread_swap-eq ok u c d,
          thread_swap-eq ok v c d,
        )
        (refl, refl, refl, refl, refl, refl, refl)

  -- A `thread_fetch_add_W` is undone by a `thread_fetch_sub_W` of the same operand, wrap-around
  -- included, where the cell and the operand fit in `w` bits; and the other way round.
  pub sub-add_undo :
      (w c d : ℕ)
      → c < 2 ^ w
      → d < 2 ^ w
      → (thread_fetch_op at u sub w (thread_fetch_op at u add w c d).0 d ≡ (c, add_word w c d))
        × (thread_fetch_op at u add w (thread_fetch_op at u sub w c d).0 d ≡ (c, sub_word w c d))
  sub-add_undo w c d hc hd =
      rw
        (
          thread_fetch_op-eq ok u add w c d,
          thread_fetch_op-eq ok u sub w c d,
          thread_fetch_op-eq ok u sub w (add_word w c d) d,
          thread_fetch_op-eq ok u add w (sub_word w c d) d,
        )
        (
          ap (λ n. (n, add_word w c d)) (wrap_back (2 ^ w) c d hc hd),
          ap (λ n. (n, sub_word w c d)) (wrap_forth (2 ^ w) c d hc hd),
        )

  -- A compare-exchange on a cell that does not hold the expected value leaves the cell, stores its
  -- content in the expected value and fails; a second try with that expected value then succeeds
  -- and writes. Threads in use or not.
  pub compare_exchange_retry :
      (c e v : ℕ)
      → c ≢ e
      → (thread_compare_exchange_strong at u c e v ≡ (false, c, c))
        × (thread_compare_exchange_strong at u
              (thread_compare_exchange_strong at u c e v).1
              (thread_compare_exchange_strong at u c e v).2
              v
            ≡ (true, v, c))
  compare_exchange_retry c e v ne = let first = cas-ne c e v ne in (first, rw first (cas-self c v))
    where
      cas-ne : (c e v : ℕ) → c ≢ e → thread_compare_exchange_strong at u c e v ≡ (false, c, c)
      cas-ne c e v ne = ground (arith, thread_compare_exchange_strong-eq ok u c e v)

      cas-self : (c v : ℕ) → thread_compare_exchange_strong at u c c v ≡ (true, v, c)
      cas-self c v = ground (arith, thread_compare_exchange_strong-eq ok u c c v)
