-- ===== src/Info/Layout.antt =====
-- The writers of device_info.c: `buffer[offset++]`, `put_u32_le`, `put_str8`, seen as appending
-- bytes to those at the start of the buffer.
use esp32_ota_link.Base.{
  ℕ, suc, ◌+◌, ◌≤◌, ◌<◌, ◌≡◌, refl, sym, ap, subst, ◌∙◌, List, [], ◌∷◌, ◌++◌, append-nil,
  append_assoc, ◌||◌, arith, ltb, if_cases, length, length-append, take, set, overwrite, length-set,
  length-overwrite, take-set, take-overwrite, u8, ◌>>>◌, bit_and,
}
use esp32_ota_link.Base.Bits.{bit_and_byte}
use esp32_ota_link.Protocol.Fields.{le32}
use esp32_ota_link.Info.Build.{Out, put_byte, put_u32_le, put_str8, put_all}
use esp32_ota_link.Info.Bounds.{IfSome, IfSome-bind}

-- A text with its length in front.
abbrev pub str8 : List ℕ → List ℕ
str8 t = u8 (length t) ∷ t

abbrev pub texts : List (List ℕ) → List ℕ
texts [] = []
texts (t ∷ ts) = str8 t ++ texts ts

-- The bytes so far stand at the start of a buffer of this size.
pub record Holds (size : ℕ) (bytes : List ℕ) (o : Out) : Type 0 where
  pub there : take o.offset o.buffer ≡ bytes
  pub ends : o.offset ≡ length bytes
  pub room : o.offset ≤ size
  pub kept : length o.buffer ≡ size

module _ (size : ℕ) where
  pub put_byte-Holds :
      (bytes : List ℕ) (o : Out) (v : ℕ)
      → o.offset < size
      → Holds size bytes o
      → Holds size (bytes ++ (v ∷ [])) (put_byte o v)
  unfolding put_byte
  put_byte-Holds bytes o v low h = record {
    there =
        ap (λ (n : ℕ). take n (set o.buffer o.offset v)) {y = suc o.offset} (omega arith)
        ∙ take-set o.buffer o.offset v (omega (arith, low, h.kept))
        ∙ ap (λ (bs : List ℕ). bs ++ (v ∷ [])) h.there;
    ends = omega (arith, length-append bytes (v ∷ []), h.ends);
    room = omega (arith, low);
    kept = length-set o.buffer o.offset v ∙ h.kept;
  }

  snoc_four :
      (bytes : List ℕ) (v : ℕ)
      → (((bytes ++ (bit_and v 0xff ∷ [])) ++ (bit_and (v >>> 8) 0xff ∷ []))
            ++ (bit_and (v >>> 16) 0xff ∷ []))
          ++ (bit_and (v >>> 24) 0xff ∷ [])
        ≡ bytes ++ le32 v
  snoc_four bytes v =
      rw
        (
          bit_and_byte v,
          bit_and_byte (v >>> 8),
          bit_and_byte (v >>> 16),
          bit_and_byte (v >>> 24),
          append_assoc,
          append_assoc,
          append_assoc,
        )
        refl

  pub put_u32_le-Holds :
      (bytes : List ℕ) (o : Out) (v : ℕ)
      → o.offset + 4 ≤ size
      → Holds size bytes o
      → Holds size (bytes ++ le32 v) (put_u32_le o v)
  unfolding put_u32_le put_byte
  put_u32_le-Holds bytes o v low h =
      let k0 = put_byte-Holds bytes o (bit_and v 0xff) (omega (arith, low)) h in
      let k1 = put_byte-Holds _ _ (bit_and (v >>> 8) 0xff) (omega (arith, low)) k0 in
      let k2 = put_byte-Holds _ _ (bit_and (v >>> 16) 0xff) (omega (arith, low)) k1 in
      subst (λ (bs : List ℕ). Holds size bs (put_u32_le o v)) (snoc_four bytes v)
        (put_byte-Holds _ _ (bit_and (v >>> 24) 0xff) (omega (arith, low)) k2)

  copied-Holds :
      (bytes : List ℕ) (o : Out) (t : List ℕ)
      → o.offset + length t ≤ size
      → Holds size bytes o
      → Holds size
          (bytes ++ t)
          (record { buffer = overwrite o.buffer o.offset t; offset = o.offset + length t })
  copied-Holds bytes o t low h = record {
    there =
        take-overwrite o.buffer o.offset t (o.offset + length t) refl (omega (arith, low, h.kept))
        ∙ ap (λ (bs : List ℕ). bs ++ t) h.there;
    ends = omega (arith, length-append bytes t, h.ends);
    room = low;
    kept = length-overwrite o.buffer o.offset t ∙ h.kept;
  }

  put_str8-Holds :
      (capacity : ℕ) (bytes : List ℕ) (o : Out) (t : List ℕ)
      → capacity ≤ size
      → Holds size bytes o
      → IfSome (Holds size (bytes ++ str8 t)) (put_str8 capacity o t)
  unfolding put_str8 put_byte
  put_str8-Holds capacity bytes o t large h =
      if_cases (IfSome (Holds size (bytes ++ str8 t)))
        (ltb 255 (length t) || ltb capacity (o.offset + 1 + length t)) (λ long. tt)
        (λ fits.
          let low : o.offset + 1 + length t ≤ capacity = ground arith in
          subst
            (λ (bs : List ℕ). Holds size bs (record {
              buffer = overwrite (set o.buffer o.offset (u8 (length t))) (o.offset + 1) t;
              offset = o.offset + 1 + length t;
            }))
            (append_assoc bytes (u8 (length t) ∷ []) t)
            (copied-Holds (bytes ++ (u8 (length t) ∷ [])) (put_byte o (u8 (length t))) t
              (omega (arith, low, large))
              (put_byte-Holds bytes o (u8 (length t)) (omega (arith, low, large)) h)))

  pub put_all-Holds :
      (capacity : ℕ) (bytes : List ℕ) (o : Out) (ts : List (List ℕ))
      → capacity ≤ size
      → Holds size bytes o
      → IfSome (Holds size (bytes ++ texts ts)) (put_all capacity o ts)
  unfolding put_all
  put_all-Holds capacity bytes o [] large h =
      subst (λ (bs : List ℕ). Holds size bs o) (sym (append-nil bytes)) h
  put_all-Holds capacity bytes o (t ∷ ts) large h =
      IfSome-bind (Holds size (bytes ++ str8 t)) (Holds size (bytes ++ texts (t ∷ ts)))
        (put_str8 capacity o t) (λ q. put_all capacity q ts)
        (put_str8-Holds capacity bytes o t large h)
        (λ q k.
          subst (λ (bs : List ℕ). IfSome (Holds size bs) (put_all capacity q ts))
            (append_assoc bytes (str8 t) (texts ts))
            (put_all-Holds capacity (bytes ++ str8 t) q ts large k))

pub texts-append : (xs ys : List (List ℕ)) → texts (xs ++ ys) ≡ texts xs ++ texts ys
texts-append [] ys = refl
texts-append (x ∷ xs) ys =
    ap (λ (bs : List ℕ). str8 x ++ bs) (texts-append xs ys)
    ∙ sym (append_assoc (str8 x) (texts xs) (texts ys))
