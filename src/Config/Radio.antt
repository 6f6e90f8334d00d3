-- ===== src/Config/Radio.antt =====
-- user_rf_pre_init of user/config_flash.c: the data of the radio's calibration, which is compared with
-- the flash memory at the start and stored there.
use esp_slip_router.Config.{SpiFlash, Layout, sec_size, flash_block_no, config_load}
use esp_slip_router.Config.Laws.{IsFlash}
use esp_slip_router.Config.Store.{answered, config_load-same}
use esp_slip_router.Prelude.{
  ℕ, ◌+◌, ◌*◌, ◌≡◌, ◌≢◌, ◌≤◌, ◌⊎◌, inl, inr, refl, sym, ◌∙◌, ap, subst, Bool, true, false, List, [],
  ◌∷◌, length, arith, ◌==◌, ==_iff, if◌then◌else◌, Bool-cases,
}

-- The cases of `flash_size_map` that are told apart; `other_map` are those of the default case.
pub data FlashSizeMap : Type 0 where
  map_4m_256_256 : FlashSizeMap
  map_8m_512_512 : FlashSizeMap
  map_16m_512_512 : FlashSizeMap
  map_16m_1024_1024 : FlashSizeMap
  map_32m_512_512 : FlashSizeMap
  map_32m_1024_1024 : FlashSizeMap
  other_map : FlashSizeMap

-- the sector that the switch chooses
unfoldable pub rf_cal_sec : FlashSizeMap → ℕ
rf_cal_sec map_4m_256_256 = 123
rf_cal_sec map_8m_512_512 = 251
rf_cal_sec map_16m_512_512 = 507
rf_cal_sec map_16m_1024_1024 = 507
rf_cal_sec map_32m_512_512 = 1019
rf_cal_sec map_32m_1024_1024 = 1019
rf_cal_sec other_map = 0

-- with the terminator of the string
abbrev pub esp_init_data_default : List ℕ
esp_init_data_default =
    0x05 ∷ 0x08 ∷ 0x04 ∷ 0x02 ∷ 0x05 ∷ 0x05 ∷ 0x05 ∷ 0x02 ∷ 0x05 ∷ 0x00 ∷ 0x04 ∷ 0x05 ∷ 0x05 ∷ 0x04
    ∷ 0x05 ∷ 0x05 ∷ 0x04 ∷ 0xfe ∷ 0xfd ∷ 0xff ∷ 0xf0 ∷ 0xf0 ∷ 0xf0 ∷ 0xe0 ∷ 0xe0 ∷ 0xe0 ∷ 0xe1
    ∷ 0x0a ∷ 0xff ∷ 0xff ∷ 0xf8 ∷ 0x00 ∷ 0xf8 ∷ 0xf8 ∷ 0x4e ∷ 0x4a ∷ 0x46 ∷ 0x40 ∷ 0x3c ∷ 0x38
    ∷ 0x00 ∷ 0x00 ∷ 0x01 ∷ 0x01 ∷ 0x02 ∷ 0x03 ∷ 0x04 ∷ 0x05 ∷ 0x01 ∷ 0x00 ∷ 0x00 ∷ 0x00 ∷ 0x00
    ∷ 0x00 ∷ 0x02 ∷ 0x00 ∷ 0x00 ∷ 0x00 ∷ 0x00 ∷ 0x00 ∷ 0x00 ∷ 0x00 ∷ 0x00 ∷ 0x00 ∷ 0xe1 ∷ 0x0a
    ∷ 0x00 ∷ 0x00 ∷ 0x00 ∷ 0x00 ∷ 0x00 ∷ 0x00 ∷ 0x00 ∷ 0x00 ∷ 0x01 ∷ 0x93 ∷ 0x43 ∷ 0x00 ∷ 0x00
    ∷ 0x00 ∷ 0x00 ∷ 0x00 ∷ 0x00 ∷ 0x00 ∷ 0x00 ∷ 0x00 ∷ 0x00 ∷ 0x00 ∷ 0x00 ∷ 0x00 ∷ 0x00 ∷ 0x00
    ∷ 0x00 ∷ 0x00 ∷ 0x00 ∷ 0x00 ∷ 0x00 ∷ 0x00 ∷ 0x00 ∷ 0x00 ∷ 0x00 ∷ 0x00 ∷ 0x00 ∷ 0x00 ∷ 0x00
    ∷ 0x00 ∷ 0x00 ∷ 0xff ∷ 0x00 ∷ 0x00 ∷ 0x00 ∷ 0x00 ∷ 0x00 ∷ 0x00 ∷ 0x01 ∷ 0x00 ∷ 0x00 ∷ 0x00
    ∷ 0x00 ∷ 0x00 ∷ 0x00 ∷ 0x00 ∷ 0x00 ∷ 0x00 ∷ 0x00 ∷ 0x00 ∷ 0x00 ∷ 0x00 ∷ 0 ∷ []

-- the loop's test over the two arrays, which have the same length
unfoldable pub differ : List ℕ → List ℕ → Bool
differ (x ∷ xs) (y ∷ ys) = let rest = differ xs ys in if x == y then rest else true
differ [] [] = false
differ [] (y ∷ ys) = true
differ (x ∷ xs) [] = true

module _ {S : Type 0} (flash : SpiFlash S) where
  -- the body of the loop at the first difference
  unfoldable pub store_rf_data : ℕ → S → S
  store_rf_data sector s =
      let s = flash.erase_sector s sector in
      let s = flash.erase_sector s (sector + 1) in
      let s = flash.erase_sector s (sector + 2) in
      flash.write s (sector * sec_size + sec_size) esp_init_data_default

  unfoldable pub user_rf_pre_init : FlashSizeMap → S → S
  unfolding rf_cal_sec differ store_rf_data
  user_rf_pre_init size_map s =
      let sector = rf_cal_sec size_map in
      let current = flash.read s (sector * sec_size + sec_size) (length esp_init_data_default) in
      if differ current esp_init_data_default then store_rf_data sector s else s

same-differ : (xs ys : List ℕ) → differ xs ys ≡ false → xs ≡ ys
unfolding differ
same-differ [] [] h = refl
same-differ [] (y ∷ ys) h = absurd cc
same-differ (x ∷ xs) [] h = absurd cc
same-differ (x ∷ xs) (y ∷ ys) h = ground (arith, same-differ xs ys)

differ_self : (xs : List ℕ) → differ xs xs ≡ false
unfolding differ
differ_self [] = refl
differ_self (x ∷ xs) = rw ((==_iff x x).1 refl) (differ_self xs)

-- None of the three sectors is that of the configuration.
away :
    (size_map : FlashSizeMap)
    → (flash_block_no ≢ rf_cal_sec size_map)
      × (flash_block_no ≢ rf_cal_sec size_map + 1)
      × (flash_block_no ≢ rf_cal_sec size_map + 2)
unfolding rf_cal_sec
away map_4m_256_256 = (omega arith, omega arith, omega arith)
away map_8m_512_512 = (omega arith, omega arith, omega arith)
away map_16m_512_512 = (omega arith, omega arith, omega arith)
away map_16m_1024_1024 = (omega arith, omega arith, omega arith)
away map_32m_512_512 = (omega arith, omega arith, omega arith)
away map_32m_1024_1024 = (omega arith, omega arith, omega arith)
away other_map = (omega arith, omega arith, omega arith)

module _ {S : Type 0} (flash : SpiFlash S) (laws : IsFlash flash) where
  -- the sector behind the first one holds the data
  Stored : ℕ → S → Type 0
  Stored sector s =
      flash.read s (sector * sec_size + sec_size) (length esp_init_data_default)
      ≡ esp_init_data_default

  store-Stored : (sector : ℕ) (s : S) → Stored sector (store_rf_data flash sector s)
  unfolding store_rf_data Stored
  store-Stored sector s =
      let s₁ = flash.erase_sector s sector in
      let s₂ = flash.erase_sector s₁ (sector + 1) in
      let s₃ = flash.erase_sector s₂ (sector + 2) in
      let e : sector * sec_size + sec_size ≡ (sector + 1) * sec_size = omega arith in
      rw (store_rf_data, e)
        (laws.written s₃ (sector + 1) 129 esp_init_data_default (omega arith) (omega arith) (
          laws.erased_elsewhere s₂ (sector + 2) (sector + 1) 129 (λ h. omega arith) (omega arith)
          ∙ laws.erased s₁ (sector + 1) 129 (omega arith)))

  -- any other sector is as it was
  store-elsewhere :
      (sector j n : ℕ) (s : S)
      → j ≢ sector
      → j ≢ sector + 1
      → j ≢ sector + 2
      → n ≤ sec_size
      → flash.read (store_rf_data flash sector s) (j * sec_size) n ≡ flash.read s (j * sec_size) n
  unfolding store_rf_data
  store-elsewhere sector j n s a b c h =
      let s₁ = flash.erase_sector s sector in
      let s₂ = flash.erase_sector s₁ (sector + 1) in
      let s₃ = flash.erase_sector s₂ (sector + 2) in
      let e : sector * sec_size + sec_size ≡ (sector + 1) * sec_size = omega arith in
      rw (store_rf_data, e)
        (laws.written_elsewhere s₃ (sector + 1) j n esp_init_data_default b h (omega arith)
          ∙ laws.erased_elsewhere s₂ (sector + 2) j n c h
          ∙ laws.erased_elsewhere s₁ (sector + 1) j n b h
          ∙ laws.erased_elsewhere s sector j n a h)

  init_cases :
      (size_map : FlashSizeMap) (s : S)
      → (user_rf_pre_init flash size_map s ≡ s) × Stored (rf_cal_sec size_map) s
        ⊎ (user_rf_pre_init flash size_map s ≡ store_rf_data flash (rf_cal_sec size_map) s)
  unfolding user_rf_pre_init Stored
  init_cases size_map s =
      let current =
        flash.read s (rf_cal_sec size_map * sec_size + sec_size) (length esp_init_data_default) in
      elim (Bool-cases (differ current esp_init_data_default)) [
        | inl e ↦ inr (rw e refl)
        | inr e ↦ inl (rw e refl, same-differ current esp_init_data_default e)
      ]

  stored :
      (size_map : FlashSizeMap) (s : S)
      → Stored (rf_cal_sec size_map) (user_rf_pre_init flash size_map s)
  stored size_map s = elim (init_cases size_map s) [
    | inl (e, h) ↦ subst (Stored (rf_cal_sec size_map)) (sym e) h
    | inr e ↦ subst (Stored (rf_cal_sec size_map)) (sym e) (store-Stored (rf_cal_sec size_map) s)
  ]

  stored_behind :
      (size_map : FlashSizeMap) (s : S)
      → flash.read (user_rf_pre_init flash size_map s) ((rf_cal_sec size_map + 1) * sec_size) 129
        ≡ esp_init_data_default
  unfolding Stored
  stored_behind size_map s =
      let e : (rf_cal_sec size_map + 1) * sec_size ≡ rf_cal_sec size_map * sec_size + sec_size =
        omega arith in
      rw e (stored size_map s)

  again :
      (size_map : FlashSizeMap) (s : S)
      → Stored (rf_cal_sec size_map) s
      → user_rf_pre_init flash size_map s ≡ s
  unfolding user_rf_pre_init Stored
  again size_map s h =
      let store_if = λ (t : Bool). if t then store_rf_data flash (rf_cal_sec size_map) s else s in
      ap (λ l. store_if (differ l esp_init_data_default)) h
      ∙ ap store_if (differ_self esp_init_data_default)

  elsewhere :
      (size_map : FlashSizeMap) (s : S) (j n : ℕ)
      → n ≤ sec_size
      → j ≢ rf_cal_sec size_map
      → j ≢ rf_cal_sec size_map + 1
      → j ≢ rf_cal_sec size_map + 2
      → flash.read (user_rf_pre_init flash size_map s) (j * sec_size) n
        ≡ flash.read s (j * sec_size) n
  elsewhere size_map s j n h a b c = elim (init_cases size_map s) [
    | inl (e, _) ↦ ap (λ t. flash.read t (j * sec_size) n) e
    | inr e ↦
        ap (λ t. flash.read t (j * sec_size) n) e
        ∙ store-elsewhere (rf_cal_sec size_map) j n s a b c h
  ]

  -- With a flash memory that is also read and written at lengths that are no multiple of 4, as the 129
  -- bytes are, after user_rf_pre_init it holds the data of the radio, a second call changes nothing,
  -- and every sector but three is as it was: the one of the flash's size and the two behind it.
  pub user_rf_pre_init_lem :
      (size_map : FlashSizeMap) (s : S)
      → (flash.read (user_rf_pre_init flash size_map s) ((rf_cal_sec size_map + 1) * sec_size) 129
          ≡ esp_init_data_default)
        × (user_rf_pre_init flash size_map (user_rf_pre_init flash size_map s)
            ≡ user_rf_pre_init flash size_map s)
        × ((j n : ℕ)
            → n ≤ sec_size
            → j ≢ rf_cal_sec size_map
            → j ≢ rf_cal_sec size_map + 1
            → j ≢ rf_cal_sec size_map + 2
            → flash.read (user_rf_pre_init flash size_map s) (j * sec_size) n
              ≡ flash.read s (j * sec_size) n)
  user_rf_pre_init_lem size_map s = (
    stored_behind size_map s,
    again size_map (user_rf_pre_init flash size_map s) (stored size_map s),
    elsewhere size_map s,
  )

  -- The configuration is found as before.
  pub user_rf_pre_init-config_load :
      (layout : Layout) (size_map : FlashSizeMap) (s : S)
      → layout.size ≤ sec_size
      → answered (config_load flash layout (user_rf_pre_init flash size_map s))
        ≡ answered (config_load flash layout s)
  user_rf_pre_init-config_load layout size_map s small =
      config_load-same flash laws layout s (user_rf_pre_init flash size_map s) small
        (λ n h. let (a, b, c) = away size_map in elsewhere size_map s flash_block_no n h a b c)
