-- ===== src/Dma/Probe/Holding.antt =====
-- What the driver of linux-user-space-dma/Software/Kernel/dma-proxy.c holds while its probe creates the
-- channels.
use software_prototypes.Base.{
  ℕ, suc, ◌≡◌, ◌≢◌, inl, inr, sym, ap, ◌∙◌, Bool, Bool-cases, ==_iff, List, [], ◌∷◌, ◌==◌, ◌+◌, ◌<◌,
  set, length, length-set, get_or-set_self, get_or-set_ne, arith,
}
use software_prototypes.Machine.{Env, World, ok}
use software_prototypes.Dma.Transfer.{Channel}
use software_prototypes.Dma.Channel.{SetupCall, zero_code, create_channel}
use software_prototypes.Dma.Probe.{Proxy, channel_at, blank_channel, direction_of, create_channels}
use software_prototypes.Dma.Probe.Resources.{
  Resource, dma_channel, cdev, device, class, region, acquired, released, given, taken, down,
  down_ext,
}
use software_prototypes.Dma.Probe.Remove.{numbers, pointers}
use software_prototypes.Dma.Probe.Create.{
  Created, Named, create_channel-Created, create_channel-Named,
}

module _ (is_err : ℕ → Bool) (e : Env SetupCall) where
  abbrev pub got : Resource → World SetupCall Proxy → ℕ
  got r w = acquired is_err e r w.log

  abbrev pub gave : Resource → World SetupCall Proxy → ℕ
  gave r w = released r w.log

  -- The first i of n channels are created.
  pub record Holding (i n : ℕ) (w : World SetupCall Proxy) : Type 0 where
    pub channels : got dma_channel w ≡ i
    pub cdevs : got cdev w ≡ i
    pub devices : got device w ≡ i
    pub classes : got class w ≡ 1
    pub regions : got region w ≡ 1
    pub kept : (r : Resource) → gave r w ≡ 0
    pub room : length w.globals.channels ≡ n
    pub count : w.globals.channel_count ≡ n
    pub has_device : (j : ℕ) → j < i → (channel_at w.globals j).proxy_device ≢ 0
    pub has_channel : (j : ℕ) → j < i → (channel_at w.globals j).dma_channel ≢ 0
    -- Which ones: the DMA channels by their pointers, the others by the channels' numbers.
    pub which_channels : given is_err e dma_channel w.log ≡ down (pointers w.globals) i
    pub which_cdevs : given is_err e cdev w.log ≡ down (λ j. j) i
    pub which_devices : given is_err e device w.log ≡ down (λ j. j) i
    pub none_taken : (r : Resource) → taken r w.log ≡ []
    pub numbered : (j : ℕ) → j < i → numbers w.globals j ≡ j

  -- The world of one channel, and the world behind its creation.
  abbrev one : ℕ → World SetupCall Proxy → World SetupCall Channel
  one i w = record { log = w.log; globals = channel_at w.globals i }

  abbrev put_back : ℕ → World SetupCall Proxy → World SetupCall Channel → World SetupCall Proxy
  put_back i w w' = record {
    log = w'.log;
    globals = record w.globals { channels = set w.globals.channels i w'.globals };
  }

  channel_at-put_back :
      (i : ℕ) (w : World SetupCall Proxy) (w' : World SetupCall Channel)
      → i < length w.globals.channels
      → channel_at (put_back i w w').globals i ≡ w'.globals
  channel_at-put_back i w w' h = get_or-set_self w.globals.channels i w'.globals blank_channel h

  channel_at-put_back_ne :
      (i j : ℕ) (w : World SetupCall Proxy) (w' : World SetupCall Channel)
      → j < i
      → channel_at (put_back i w w').globals j ≡ channel_at w.globals j
  channel_at-put_back_ne i j w w' h =
      let other : i ≢ j = omega (arith, h) in
      get_or-set_ne w.globals.channels w'.globals blank_channel other

  -- What holds of channel i and of those before it holds of the first i + 1 channels.
  up_to :
      (P : ℕ → Channel → Type 0) (i j : ℕ) (w : World SetupCall Proxy)
      (w' : World SetupCall Channel)
      → i < length w.globals.channels
      → P i w'.globals
      → ((j : ℕ) → j < i → P j (channel_at w.globals j))
      → j < suc i
      → P j (channel_at (put_back i w w').globals j)
  up_to P i j w w' b p q l = elim (Bool-cases (j == i)) [
    | inl y ↦ let same : j ≡ i = (==_iff j i).0 y in rw (same, channel_at-put_back i w w' b) p
    | inr y ↦
        let less : j < i = ground (arith, y, l) in
        rw (channel_at-put_back_ne i j w w' less) (q j less)
  ]

  pointers-put_back :
      (i : ℕ) (w : World SetupCall Proxy) (w' : World SetupCall Channel)
      → down (pointers (put_back i w w').globals) i ≡ down (pointers w.globals) i
  pointers-put_back i w w' =
      down_ext (pointers (put_back i w w').globals) (pointers w.globals) i
        (λ j l. ap Channel.dma_channel (channel_at-put_back_ne i j w w' l))

  Created-Holding :
      (i n : ℕ) (w : World SetupCall Proxy) (w' : World SetupCall Channel)
      → i < n
      → Holding i n w
      → Created is_err e w.log w'.log w'.globals
      → Named is_err e i w.log w'.log w'.globals
      → Holding (suc i) n (put_back i w w')
  unfolding down
  Created-Holding i n w w' b h c m =
      let inside : i < length w.globals.channels = omega (arith, b, h.room) in
      let here = channel_at-put_back i w w' inside in
      record {
        channels = c.channels ∙ ap suc h.channels;
        cdevs = c.cdevs ∙ ap suc h.cdevs;
        devices = c.devices ∙ ap suc h.devices;
        classes = c.classes ∙ h.classes;
        regions = c.regions ∙ h.regions;
        kept = λ r. c.kept r ∙ h.kept r;
        room = length-set w.globals.channels i w'.globals ∙ h.room;
        count = h.count;
        has_device =
            λ j l. up_to (λ _ d. d.proxy_device ≢ 0) i j w w' inside c.has_device h.has_device l;
        has_channel =
            λ j l. up_to (λ _ d. d.dma_channel ≢ 0) i j w w' inside c.has_channel h.has_channel l;
        which_channels =
            m.channels
            ∙ ap (λ k. k ∷ given is_err e dma_channel w.log) (sym (ap Channel.dma_channel here))
            ∙ ap (λ k. pointers (put_back i w w').globals i ∷ k)
                (h.which_channels ∙ sym (pointers-put_back i w w'));
        which_cdevs = m.cdevs ∙ ap (λ k. i ∷ k) h.which_cdevs;
        which_devices = m.devices ∙ ap (λ k. i ∷ k) h.which_devices;
        none_taken = λ r. m.kept r ∙ h.none_taken r;
        numbered = λ j l. up_to (λ k d. d.channel ≡ k) i j w w' inside m.number h.numbered l;
      }

  create_channels_step :
      (i : ℕ) (name : List ℕ) (names : List (List ℕ)) (w : World SetupCall Proxy)
      → (create_channels is_err i (name ∷ names) e w).0 ≡ ok zero_code
      → let (r, w') = create_channel is_err i (direction_of name) e (one i w) in
        (r ≡ ok zero_code)
        × (create_channels is_err i (name ∷ names) e w
            ≡ create_channels is_err (suc i) names e (put_back i w w'))
  unfolding create_channels
  create_channels_step i name names w h = ground (arith, h)

  pub create_channels-Holding :
      (i n : ℕ) (names : List (List ℕ)) (w : World SetupCall Proxy)
      → n ≡ i + length names
      → Holding i n w
      → (create_channels is_err i names e w).0 ≡ ok zero_code
      → Holding n n (create_channels is_err i names e w).1
  unfolding create_channels
  create_channels-Holding i n [] w s h r = let done : i ≡ n = omega (arith, s) in rw done at h
  create_channels-Holding i n (name ∷ names) w s h r =
      let (c, same) = create_channels_step i name names w r in
      let w' = (create_channel is_err i (direction_of name) e (one i w)).1 in
      let h' =
        Created-Holding i n w w' (omega (arith, s)) h
          (create_channel-Created is_err e i (direction_of name) (one i w) c)
          (create_channel-Named is_err e i (direction_of name) (one i w) c) in
      rw same (
        create_channels-Holding (suc i) n names (put_back i w w') (omega (arith, s)) h'
          (sym (ap (λ p. p.0) same) ∙ r))
