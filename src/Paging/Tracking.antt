-- ===== src/Paging/Tracking.antt =====
-- A frame is marked as used exactly while its reference count is not 0.
use toy_kernel.Base.{
  ℕ, ◌+◌, ◌-◌, ◌%◌, ◌^◌, ◌<◌, ◌≡◌, ◌≢◌, sym, ap, ◌∙◌, not, ◌==◌, arith, if◌then◌else◌, ok, ok-inj,
  Bool-cases, inl, inr, subst,
}
use toy_kernel.Bitmap.{set_one, set_zero, is_set}
use toy_kernel.Bitmap.Bits.{
  IsBitArray, is_set-set_one, is_set-set_zero, set_one-IsBitArray, set_zero-IsBitArray,
}
use toy_kernel.Paging.Types.{PhysicalBitmap, update, ram_as_4m_pages}
use toy_kernel.Paging.Frames.{set_page_frame_used, set_page_frame_free}

pub record IsTracked (b : PhysicalBitmap) : Type 0 where
  pub valid : IsBitArray ram_as_4m_pages b.bits
  pub counted : (i : ℕ) → i < ram_as_4m_pages → is_set b.bits i ≡ not (b.refs i == 0)

-- One reference more, and one less.
pub record Used (b b' : PhysicalBitmap) (i : ℕ) : Type 0 where
  pub in_range : i < ram_as_4m_pages
  pub refs : b'.refs ≡ update b.refs i ((b.refs i + 1) % 2 ^ 16)
  pub bits : set_one ram_as_4m_pages b.bits i ≡ ok b'.bits

pub record Freed (b b' : PhysicalBitmap) (i : ℕ) : Type 0 where
  pub held : b.refs i ≢ 0
  pub refs : b'.refs ≡ update b.refs i (b.refs i - 1)
  pub bits :
      (if b.refs i - 1 == 0 then set_zero ram_as_4m_pages b.bits i else ok b.bits) ≡ ok b'.bits

module _ (b b' : PhysicalBitmap) (i : ℕ) where
  in_range_of : set_one ram_as_4m_pages b.bits i ≡ ok b'.bits → i < ram_as_4m_pages
  unfolding set_one
  in_range_of h = ground arith

  pub set_page_frame_used-Used : set_page_frame_used b i ≡ ok b' → Used b b' i
  unfolding set_page_frame_used
  set_page_frame_used-Used h =
      let e : set_one ram_as_4m_pages b.bits i ≡ ok b'.bits = ground arith in
      record { in_range = in_range_of e; refs = ground arith; bits = e }

  pub set_page_frame_free-Freed : set_page_frame_free b i ≡ ok b' → Freed b b' i
  unfolding set_page_frame_free
  set_page_frame_free-Freed h = record {
    held = ground arith;
    refs = ground arith;
    bits = ground arith;
  }

  -- `setPageFrameUsed` keeps the bitmap in step with the counts, unless the count wraps round.
  pub Used-IsTracked : IsTracked b → b.refs i + 1 < 2 ^ 16 → Used b b' i → IsTracked b'
  Used-IsTracked t room u = record {
    valid = set_one-IsBitArray ram_as_4m_pages b.bits b'.bits i t.valid u.bits;
    counted = λ j lt. ground (
      arith,
      is_set-set_one ram_as_4m_pages b.bits b'.bits i t.valid j u.bits,
      t.counted j lt,
      ap (λ f. f j) u.refs,
    );
  }

  -- `setPageFrameFree` keeps it in step.
  pub Freed-IsTracked : IsTracked b → Freed b b' i → IsTracked b'
  Freed-IsTracked t u = elim (Bool-cases (b.refs i - 1 == 0)) [
    | inl last ↦
        let e : set_zero ram_as_4m_pages b.bits i ≡ ok b'.bits = rw last at u.bits in
        record {
          valid = set_zero-IsBitArray ram_as_4m_pages b.bits b'.bits i t.valid e;
          counted = λ j lt. ground (
            arith,
            is_set-set_zero ram_as_4m_pages b.bits b'.bits i t.valid j e,
            t.counted j lt,
            ap (λ f. f j) u.refs,
          );
        }
    | inr more ↦
        let e : ok b.bits ≡ ok b'.bits = rw more at u.bits in
        let same : b.bits ≡ b'.bits = ok-inj e in
        record {
          valid = subst (IsBitArray ram_as_4m_pages) same t.valid;
          counted = λ j lt.
              sym (ap (λ c. is_set c j) same)
              ∙ ground (arith, t.counted j lt, ap (λ f. f j) u.refs);
        }
  ]
