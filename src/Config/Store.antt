-- ===== src/Config/Store.antt =====
-- What user/config_flash.c saves is what it loads.
use esp_slip_router.Prelude.{
  ℕ, ◌⊎◌, subst, ◌+◌, ◌*◌, ◌≡◌, ◌≢◌, ◌≤◌, ◌<◌, refl, sym, ◌∙◌, ap, ap₂, Bool, true, false, List,
  arith, length, take, take-length, ◌&&◌, ◌==◌, ==_iff, Bool-cases, inl, inr, u16, if◌then◌else◌,
}
use esp_slip_router.Config.{
  SysConfig, SpiFlash, Layout, flash_block_no, magic, sec_size, le32, config_load_default, store,
  config_save, config_load, use_default, blob_save, blob_load,
}
use esp_slip_router.Config.Laws.{IsFlash, Keeps}

-- whether a configuration was found, and the one in use
abbrev pub answered : {S : Type 0} → Bool × SysConfig × S → Bool × SysConfig
answered (good, c, _) = (good, c)

module _ {S : Type 0} (flash : SpiFlash S) (laws : IsFlash flash) where
  store-read :
      (k n : ℕ) (bytes : List ℕ) (s : S)
      → n ≤ length bytes
      → length bytes ≤ sec_size
      → flash.read (store flash k bytes s) (k * sec_size) n ≡ take n bytes
  unfolding store
  store-read k n bytes s h le =
      laws.written (flash.erase_sector s k) k n bytes h le (laws.erased s k (length bytes) le)

  store-elsewhere :
      (k j n : ℕ) (bytes : List ℕ) (s : S)
      → j ≢ k
      → n ≤ sec_size
      → length bytes ≤ sec_size
      → flash.read (store flash k bytes s) (j * sec_size) n ≡ flash.read s (j * sec_size) n
  unfolding store
  store-elsewhere k j n bytes s d h le =
      laws.written_elsewhere (flash.erase_sector s k) k j n bytes d h le
      ∙ laws.erased_elsewhere s k j n d h

  module _ (layout : Layout) where
    load_known :
        (c : SysConfig) (s : S)
        → le32 (flash.read s (flash_block_no * sec_size) 4) ≡ magic
        → layout.of_bytes (flash.read s (flash_block_no * sec_size) layout.size) ≡ c
        → c.length ≡ layout.size
        → config_load flash layout s ≡ (true, c, s)
    unfolding config_load
    load_known c s m e l = rw ((==_iff _ _).1 m, e, (==_iff _ _).1 l) refl

    -- A configuration with the magic number and its length, once saved, is loaded as it was, by a
    -- layout that keeps it.
    pub config_save-config_load :
        (c : SysConfig) (s : S)
        → Keeps layout c
        → c.magic_number ≡ magic
        → c.length ≡ layout.size
        → config_load flash layout (config_save flash layout c s)
          ≡ (true, c, config_save flash layout c s)
    unfolding config_save
    config_save-config_load c s k m l =
        let bytes = layout.to_bytes c in
        let fits : length bytes ≤ sec_size = omega (arith, k.bytes, k.small) in
        load_known c (config_save flash layout c s)
          (ap le32 (store-read flash_block_no 4 bytes s (omega (arith, k.bytes, k.some)) fits)
            ∙ k.front
            ∙ m)
          (ap layout.of_bytes (
              store-read flash_block_no layout.size bytes s (omega (arith, k.bytes)) fits
              ∙ take-length layout.size bytes (omega (arith, k.bytes)))
            ∙ k.back)
          l

    found : S → SysConfig
    found s = layout.of_bytes (flash.read s (flash_block_no * sec_size) layout.size)

    known : S → Bool
    known s = le32 (flash.read s (flash_block_no * sec_size) 4) == magic

    whole : S → Bool
    whole s = (found s).length == layout.size

    load_cases :
        (s : S)
        → ((known s && whole s) ≡ true) × (config_load flash layout s ≡ (true, found s, s))
          ⊎ ((known s && whole s) ≡ false)
            × (config_load flash layout s ≡ use_default flash layout s)
    unfolding config_load known whole found
    load_cases s = elim (Bool-cases (known s)) [
      | inr e ↦ inr (rw e refl, rw e refl)
      | inl e ↦ elim (Bool-cases (whole s)) [
        | inr f ↦ inr (rw (e, f) refl, rw (e, f) refl)
        | inl f ↦ inl (rw (e, f) refl, rw (e, f) refl)
      ]
    ]

    answer : Bool → SysConfig → Bool × SysConfig
    answer good c = if good then (true, c) else (false, config_load_default layout)

    load_answer :
        (s : S) → answered (config_load flash layout s) ≡ answer (known s && whole s) (found s)
    unfolding answer
    load_answer s = elim (load_cases s) [
      | inl (e, r) ↦ ap answered r ∙ sym (rw e refl)
      | inr (e, r) ↦ ap answered r ∙ sym (rw e refl)
    ]

    -- A configuration that is found leaves the flash as it was.
    pub config_load-found :
        (c : SysConfig) (s : S)
        → answered (config_load flash layout s) ≡ (true, c)
        → config_load flash layout s ≡ (true, c, s)
    config_load-found c s a = elim (load_cases s) [
      | inl (_, r) ↦ r ∙ ap (λ (p : Bool × SysConfig). (true, p.1, s)) (sym (ap answered r) ∙ a)
      | inr (_, r) ↦
          absurd (false_true (ap (λ (p : Bool × SysConfig). p.0) (sym (ap answered r) ∙ a)))
    ]
      where
        false_true : false ≢ true
        false_true h = cc

    -- `config_load` returns the configuration in the first sector and leaves the flash alone, if it has
    -- the magic number and the layout's length; otherwise it returns the default one and saves it.
    -- Either way it loads the same again the next time, if the layout keeps the default one.
    pub config_load-config_load :
        (s : S)
        → Keeps layout (config_load_default layout)
        → (config_load flash layout s ≡ (
            if le32 (flash.read s (flash_block_no * sec_size) 4) == magic
              && (layout.of_bytes (flash.read s (flash_block_no * sec_size) layout.size)).length
                == layout.size
            then (true, layout.of_bytes (flash.read s (flash_block_no * sec_size) layout.size), s)
            else (
              false,
              config_load_default layout,
              config_save flash layout (config_load_default layout) s,
            )))
          × (config_load flash layout (config_load flash layout s).2
              ≡ (true, (config_load flash layout s).1, (config_load flash layout s).2))
    unfolding known whole found
    config_load-config_load s k = elim (load_cases s) [
      | inl (b, e) ↦ (e ∙ sym (rw b refl), subst Again (sym e) e)
      | inr (b, e) ↦ (e ∙ sym (rw b refl), subst Again (sym e) saved)
    ]
      where
        Again : Bool × SysConfig × S → Type 0
        Again r = config_load flash layout r.2 ≡ (true, r.1, r.2)

        saved : Again (use_default flash layout s)
        saved =
            config_save-config_load (config_load_default layout) s k
              (unfold config_load_default in refl)
              (unfold config_load_default in omega (arith, k.small))

    -- What `config_load` returns is read from the first sector alone.
    pub config_load-same :
        (s t : S)
        → layout.size ≤ sec_size
        → ((n : ℕ)
            → n ≤ sec_size
            → flash.read t (flash_block_no * sec_size) n
              ≡ flash.read s (flash_block_no * sec_size) n)
        → answered (config_load flash layout t) ≡ answered (config_load flash layout s)
    unfolding whole
    config_load-same s t small h =
        load_answer t
        ∙ ap₂ (λ k f. answer (k && (f.length == layout.size)) f) same_known same_found
        ∙ sym (load_answer s)
      where
        same_found : found t ≡ found s
        same_found = unfold found in ap layout.of_bytes (h layout.size small)

        same_known : known t ≡ known s
        same_known = unfold known in ap (λ l. le32 l == magic) (h 4 (omega arith))

  -- A blob of a sector at most is loaded as it was saved.
  pub blob_save-blob_load :
      (n : ℕ) (bytes : List ℕ) (s : S)
      → length bytes ≤ sec_size
      → blob_load flash n (length bytes) (blob_save flash n bytes s) ≡ bytes
  unfolding blob_load blob_save
  blob_save-blob_load n bytes s h =
      store-read _ (length bytes) bytes s (omega arith) h
      ∙ take-length (length bytes) bytes (omega arith)

  -- Saving a blob of a sector at most leaves what `config_load` returns and the configuration that it loads as they were, for a
  -- layout of a sector at most.
  pub blob_save-config_load :
      (layout : Layout) (n : ℕ) (bytes : List ℕ) (s : S)
      → layout.size ≤ sec_size
      → n < 256
      → length bytes ≤ sec_size
      → answered (config_load flash layout (blob_save flash n bytes s))
        ≡ answered (config_load flash layout s)
  unfolding blob_save
  blob_save-config_load layout n bytes s small lt h =
      let other : flash_block_no ≢ u16 (flash_block_no + 1 + n) = omega arith in
      config_load-same layout s (blob_save flash n bytes s) small
        (λ k le. store-elsewhere _ flash_block_no k bytes s other le h)
