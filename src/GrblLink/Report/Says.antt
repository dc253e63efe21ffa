-- ===== src/GrblLink/Report/Says.antt =====
-- What a status report makes of the link and of the shared state.
use pico2w_grbl_bridge.Base.{
  ℕ, ◌/◌, ◌%◌, ◌^◌, ◌≤◌, ◌≡◌, refl, Bool, true, false, ◌||◌, ◌&&◌, not, List, [], ◌∷◌, arith,
  get_or, length-replicate, ltb, if◌then◌else◌, Bytes, replicate,
}
use pico2w_grbl_bridge.CString.{strncpy, str_eq}
use pico2w_grbl_bridge.CString.Laws.{strncpy-strncpy}
use pico2w_grbl_bridge.GrblLink.Report.Print.{
  Field, mpos, wpos, wco, fs, tbl, tblabs, st3215, wcs, other, meanings,
}
use pico2w_grbl_bridge.Floats.{Floats}
use pico2w_grbl_bridge.SharedState.Filtered
use pico2w_grbl_bridge.SharedState.Machine.{MachineState, set_status}
use pico2w_grbl_bridge.GrblLink.State.{Core, Link}
use pico2w_grbl_bridge.GrblLink.Report.{Fields, assemble, cache, publish, is_nil}
use pico2w_grbl_bridge.GrblLink.Report.Wco.{subtract_axes-get, get_or-replicate}

module _ (fl : Floats) where
  open fl use {Real, zero_real, subtract}

  -- The work position of axis `j`: the reported one, or the machine position less the newest offset on the
  -- axes that both have, or 0.
  abbrev pub work_position : Fields Real → Link Real → ℕ → Real
  work_position f l j =
      let wco : List Real = if f.have_wco then f.wco else l.last_wco in
      let count : ℕ = if f.have_wco then f.n_wco else l.last_wco_count in
      let known : Bool = f.have_wco || l.have_last_wco in
      if f.have_wpos
      then get_or f.wpos j zero_real
      else if f.have_mpos && (known && (ltb j f.n_mpos && ltb j count))
      then subtract (get_or f.mpos j zero_real) (get_or wco j zero_real)
      else zero_real

  -- What is known when a report `raw` with status word `word` and fields `f` came in at time `now`, and
  -- before it `c` was known.
  pub record Says (raw word : Bytes) (f : Fields Real) (now : ℕ) (c d : Core Real) : Type 0 where
    pub connected_is : d.shared.machine.connected ≡ true
    pub status_is : d.shared.machine.status ≡ strncpy 15 word
    pub mpos_is :
        (j : ℕ)
        → get_or d.shared.machine.mpos j zero_real
          ≡ (if f.have_mpos then get_or f.mpos j zero_real else zero_real)
    pub wpos_is : (j : ℕ) → get_or d.shared.machine.wpos j zero_real ≡ work_position f c.link j
    pub has_wpos_is :
        d.shared.machine.has_wpos
        ≡ (f.have_wpos || (f.have_mpos && (f.have_wco || c.link.have_last_wco)))
    pub feed_is : d.shared.machine.feed ≡ f.feed
    pub speed_is : d.shared.machine.speed ≡ f.speed
    pub naxes_is : d.shared.machine.naxes ≡ (
        let said : ℕ = if f.have_mpos then f.n_mpos else 0 in
        if f.have_wpos && ltb said f.n_wpos then f.n_wpos else said)
    pub table_is :
        d.shared.machine.table_deg
        ≡ (if f.have_table || f.have_table_abs then f.table_deg else zero_real)
    pub table_abs_is : d.shared.machine.table_abs_deg ≡ (
        if f.have_table_abs
        then f.table_abs_deg
        else if f.have_table
        then f.table_deg
        else zero_real)
    pub servo_is : d.shared.machine.servo_deg ≡ (if f.have_servo then f.servo_deg else zero_real)
    pub has_table_is : d.shared.machine.has_table ≡ (f.have_table || f.have_table_abs)
    pub has_servo_is : d.shared.machine.has_servo ≡ f.have_servo
    pub wcs_is : d.shared.machine.wcs ≡ (
        if f.have_wcs
        then strncpy 7 f.wcs_buf
        else if c.link.have_last_wcs
        then strncpy 7 c.link.last_wcs
        else [])
    pub alarm_same : d.shared.machine.alarm ≡ c.shared.machine.alarm
    pub time_is : d.shared.machine.last_status_ms ≡ now / 1000 % 2 ^ 32
    pub last_word_is : d.link.last_status_word ≡ strncpy 15 word
    pub force_done : d.link.force_next_status_log ≡ false
    pub filtered_is : d.shared.filtered ≡ (
        if c.link.force_next_status_log
          || (not (is_nil c.link.last_status_word)
              && not (str_eq c.link.last_status_word (strncpy 15 word)))
        then Filtered.push c.shared.filtered raw
        else c.shared.filtered)
    pub queue_same : d.shared.queue ≡ c.shared.queue
    pub realtime_same : d.shared.realtime ≡ c.shared.realtime
    pub console_same : d.shared.console ≡ c.shared.console
    pub heartbeat_same : d.shared.heartbeat ≡ c.shared.heartbeat
    pub ticks_same : d.shared.core1_ticks ≡ c.shared.core1_ticks
    pub offset_is : d.link.last_wco ≡ (if f.have_wco then f.wco else c.link.last_wco)
    pub offset_count_is :
        d.link.last_wco_count ≡ (if f.have_wco then f.n_wco else c.link.last_wco_count)
    pub offset_known_is : d.link.have_last_wco ≡ (f.have_wco || c.link.have_last_wco)
    pub system_is : d.link.last_wcs ≡ (if f.have_wcs then strncpy 7 f.wcs_buf else c.link.last_wcs)
    pub system_known_is : d.link.have_last_wcs ≡ (f.have_wcs || c.link.have_last_wcs)
    pub query_same : d.link.need_g_query ≡ c.link.need_g_query
    pub waiting_same : d.link.waiting_ok ≡ c.link.waiting_ok

  -- At most six axes.
  pub record HasSix (f : Fields Real) : Type 0 where
    pub six_mpos : f.n_mpos ≤ 6
    pub six_wpos : f.n_wpos ≤ 6
    pub six_wco : f.n_wco ≤ 6

  pub meanings-HasSix :
      (fields : List (Field Real)) (f : Fields Real) → HasSix f → HasSix (meanings fields f)
  unfolding meanings
  meanings-HasSix [] f h = h
  meanings-HasSix (mpos xs ∷ fields) f h = meanings-HasSix fields _ (ground (arith, h))
  meanings-HasSix (wpos xs ∷ fields) f h = meanings-HasSix fields _ (ground (arith, h))
  meanings-HasSix (wco xs ∷ fields) f h = meanings-HasSix fields _ (ground (arith, h))
  meanings-HasSix (fs x y ∷ fields) f h = meanings-HasSix fields _ (ground (arith, h))
  meanings-HasSix (tbl x ∷ fields) f h = meanings-HasSix fields _ (ground (arith, h))
  meanings-HasSix (tblabs x ∷ fields) f h = meanings-HasSix fields _ (ground (arith, h))
  meanings-HasSix (st3215 x ∷ fields) f h = meanings-HasSix fields _ (ground (arith, h))
  meanings-HasSix (wcs text ∷ fields) f h = meanings-HasSix fields _ (ground (arith, h))
  meanings-HasSix (other k v ∷ fields) f h = meanings-HasSix fields _ h

  module _ (word : Bytes) (f : Fields Real) (l : Link Real) where
    ns : MachineState Real
    ns = assemble fl (strncpy 15 word) f (cache fl f l)

    assemble-mpos :
        (j : ℕ)
        → get_or ns.mpos j zero_real
          ≡ (if f.have_mpos then get_or f.mpos j zero_real else zero_real)
    unfolding ns assemble cache
    assemble-mpos j = ground (arith, get_or-replicate 6 j zero_real)

    assemble-wpos :
        (j : ℕ) → HasSix f → l.last_wco_count ≤ 6 → get_or ns.wpos j zero_real ≡ work_position f l j
    unfolding ns assemble cache
    assemble-wpos j h six =
        let count : ℕ = if f.have_wco then f.n_wco else l.last_wco_count in
        let wco : List Real = if f.have_wco then f.wco else l.last_wco in
        let n : ℕ = if ltb f.n_mpos count then f.n_mpos else count in
        ground (
          arith,
          h,
          subtract_axes-get fl n 0 j f.mpos wco (replicate 6 zero_real),
          get_or-replicate 6 j zero_real,
          length-replicate 6 zero_real,
        )

    assemble-wcs : ns.wcs ≡ (
        if f.have_wcs
        then strncpy 7 f.wcs_buf
        else if l.have_last_wcs
        then strncpy 7 l.last_wcs
        else [])
    unfolding ns assemble cache
    assemble-wcs = ground (arith, strncpy-strncpy 7 f.wcs_buf)

    assemble-naxes :
        HasSix f
        → ns.naxes ≡ (
            let said : ℕ = if f.have_mpos then f.n_mpos else 0 in
            if f.have_wpos && ltb said f.n_wpos then f.n_wpos else said)
    unfolding ns assemble cache
    assemble-naxes h = ground (arith, h)

  pub publish-Says :
      (raw word : Bytes) (f : Fields Real) (now : ℕ) (c : Core Real)
      → HasSix f
      → c.link.last_wco_count ≤ 6
      → Says raw word f now c (
          publish fl raw
            (assemble fl (strncpy 15 word) f (cache fl f c.link))
            now
            (record c { link = cache fl f c.link }))
  unfolding publish ns set_status
  publish-Says raw word f now c h six = record {
    connected_is = unfold assemble in refl;
    status_is = unfold assemble in refl;
    mpos_is = assemble-mpos word f c.link;
    wpos_is = λ j. assemble-wpos word f c.link j h six;
    has_wpos_is = unfold assemble cache in refl;
    feed_is = unfold assemble in refl;
    speed_is = unfold assemble in refl;
    naxes_is = assemble-naxes word f c.link h;
    table_is = unfold assemble in refl;
    table_abs_is = unfold assemble in refl;
    servo_is = unfold assemble in refl;
    has_table_is = unfold assemble in refl;
    has_servo_is = unfold assemble in refl;
    wcs_is = assemble-wcs word f c.link;
    alarm_same = ground arith;
    time_is = refl;
    last_word_is = unfold assemble in strncpy-strncpy 15 word;
    force_done = refl;
    filtered_is = unfold assemble cache in ground arith;
    queue_same = ground arith;
    realtime_same = ground arith;
    console_same = ground arith;
    heartbeat_same = ground arith;
    ticks_same = ground arith;
    offset_is = unfold cache in refl;
    offset_count_is = unfold cache in refl;
    offset_known_is = unfold cache in refl;
    system_is = unfold cache in refl;
    system_known_is = unfold cache in refl;
    query_same = unfold cache in refl;
    waiting_same = unfold cache in refl;
  }
