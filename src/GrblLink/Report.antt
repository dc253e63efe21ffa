-- ===== src/GrblLink/Report.antt =====
-- `parse_csv_floats` and `parse_status_report` of src/grbl_link.c. The string functions that write
-- a NUL into the buffer (`strtok_r`, `*colon = '\0'`) are modelled by the strings that they leave.
pub mod Wco
pub mod Says
pub mod Print
pub mod Values
pub mod Meaning
pub mod RoundTrip
pub mod Log
mod Tests
use pico2w_grbl_bridge.Base.{
  ℕ, zero, suc, ◌+◌, ◌-◌, ◌%◌, Bool, true, false, not, ◌&&◌, ◌||◌, Option, none, some, List, [],
  ◌∷◌, get_or, set, replicate, ltb, ◌==◌, if◌then◌else◌, Bytes, codes,
}
use pico2w_grbl_bridge.CString.{strncpy, str_eq, tokens, split_at}
use pico2w_grbl_bridge.Floats.{Floats}
use pico2w_grbl_bridge.SharedState.Sizes.{grbl_max_axes, grbl_status_len, grbl_wcs_len}
use pico2w_grbl_bridge.SharedState.Machine.{MachineState, zeroed}
use pico2w_grbl_bridge.SharedState.Shared.{Shared, set_status, filtered_push}
use pico2w_grbl_bridge.GrblLink.State.{Link, Core, ms_since_boot}

-- the locals of `parse_status_report` that its loop fills
pub record Fields (F : Type 0) : Type 0 where
  pub mpos : List F
  pub wpos : List F
  pub wco : List F
  pub n_mpos : ℕ
  pub n_wpos : ℕ
  pub n_wco : ℕ
  pub have_mpos : Bool
  pub have_wpos : Bool
  pub have_wco : Bool
  pub feed : F
  pub speed : F
  pub table_deg : F
  pub table_abs_deg : F
  pub servo_deg : F
  pub have_table : Bool
  pub have_table_abs : Bool
  pub have_servo : Bool
  pub wcs_buf : Bytes
  pub have_wcs : Bool

-- `if (len && buf[len - 1] == '>') buf[len - 1] = '\0';`
unfoldable pub strip_gt : Bytes → Bytes
strip_gt [] = []
strip_gt (c ∷ []) = if c == b'>' then [] else c ∷ []
strip_gt (c ∷ d ∷ s) = c ∷ strip_gt (d ∷ s)

-- `(tok[0] == '<') ? tok + 1 : tok`
unfoldable pub status_name : Bytes → Bytes
status_name [] = []
status_name (c ∷ s) = if c == b'<' then s else c ∷ s

abbrev pub is_nil : Bytes → Bool
is_nil [] = true
is_nil (c ∷ s) = false

module _ (fl : Floats) where
  open fl use {Real, zero_real, subtract, strtof}

  abbrev pub zero_axes : List Real
  zero_axes = replicate grbl_max_axes zero_real

  abbrev pub no_fields : Fields Real
  no_fields = record {
    mpos = zero_axes;
    wpos = zero_axes;
    wco = zero_axes;
    n_mpos = 0;
    n_wpos = 0;
    n_wco = 0;
    have_mpos = false;
    have_wpos = false;
    have_wco = false;
    feed = zero_real;
    speed = zero_real;
    table_deg = zero_real;
    table_abs_deg = zero_real;
    servo_deg = zero_real;
    have_table = false;
    have_table_abs = false;
    have_servo = false;
    wcs_buf = [];
    have_wcs = false;
  }

  -- the loop of `parse_csv_floats`, over the tokens that are left: `n`, and the array `out`
  unfoldable pub csv_from : List Bytes → ℕ → ℕ → List Real → ℕ × List Real
  csv_from [] n max_n out = (n, out)
  csv_from (tok ∷ toks) n max_n out =
      let more = csv_from toks (n + 1) max_n (set out n (strtof tok)) in
      if ltb n max_n then more else (n, out)

  -- `parse_csv_floats`
  unfoldable pub parse_csv_floats : Bytes → List Real → ℕ → ℕ × List Real
  unfolding csv_from
  parse_csv_floats s out max_n = csv_from (tokens (codes ",") s) 0 max_n out

  -- the chain of `strcmp(key, ..)` in the loop
  unfoldable pub assign : Bytes → Bytes → Fields Real → Fields Real
  unfolding parse_csv_floats
  assign key val f =
      if str_eq key (codes "MPos")
      then (let (n, out) = parse_csv_floats val f.mpos grbl_max_axes in
          record f { mpos = out; n_mpos = n; have_mpos = ltb 0 n })
      else if str_eq key (codes "WPos")
      then (let (n, out) = parse_csv_floats val f.wpos grbl_max_axes in
          record f { wpos = out; n_wpos = n; have_wpos = ltb 0 n })
      else if str_eq key (codes "WCO")
      then (let (n, out) = parse_csv_floats val f.wco grbl_max_axes in
          record f { wco = out; n_wco = n; have_wco = ltb 0 n })
      else if str_eq key (codes "FS")
      then (let (n, fs) = parse_csv_floats val (replicate 2 zero_real) 2 in
          record f {
            feed = if ltb 0 n then get_or fs 0 zero_real else f.feed;
            speed = if ltb 1 n then get_or fs 1 zero_real else f.speed;
          })
      else if str_eq key (codes "TBL")
      then (let (n, out) = parse_csv_floats val (f.table_deg ∷ []) 1 in
          record f { table_deg = get_or out 0 zero_real; have_table = ltb 0 n })
      else if str_eq key (codes "TBLABS")
      then (let (n, out) = parse_csv_floats val (f.table_abs_deg ∷ []) 1 in
          record f { table_abs_deg = get_or out 0 zero_real; have_table_abs = ltb 0 n })
      else if str_eq key (codes "ST3215")
      then (let (n, out) = parse_csv_floats val (f.servo_deg ∷ []) 1 in
          record f { servo_deg = get_or out 0 zero_real; have_servo = ltb 0 n })
      else if str_eq key (codes "WCS")
      then record f { wcs_buf = strncpy (grbl_wcs_len - 1) val; have_wcs = true }
      else f

  abbrev pub assign_split : Option (Bytes × Bytes) → Fields Real → Fields Real
  assign_split none f = f
  assign_split (some (key, val)) f = assign key val f

  -- the `while (tok)` loop
  unfoldable pub read_fields : List Bytes → Fields Real → Fields Real
  read_fields [] f = f
  read_fields (tok ∷ toks) f = read_fields toks (assign_split (split_at b':' tok) f)

  -- `if (have_wco) ..` and `if (have_wcs) ..`
  unfoldable pub cache : Fields Real → Link Real → Link Real
  cache f l = record l {
    last_wco = if f.have_wco then f.wco else l.last_wco;
    last_wco_count = if f.have_wco then f.n_wco else l.last_wco_count;
    have_last_wco = f.have_wco || l.have_last_wco;
    last_wcs = if f.have_wcs then strncpy (grbl_wcs_len - 1) f.wcs_buf else l.last_wcs;
    have_last_wcs = f.have_wcs || l.have_last_wcs;
  }

  -- `for (int i = 0; i < n; i++) ns.wpos[i] = mpos[i] - last_wco[i];`, with the rounds left
  unfoldable pub subtract_axes : ℕ → ℕ → List Real → List Real → List Real → List Real
  subtract_axes zero i mpos wco wpos = wpos
  subtract_axes (suc left) i mpos wco wpos =
      subtract_axes left (i + 1) mpos wco
        (set wpos i (subtract (get_or mpos i zero_real) (get_or wco i zero_real)))

  -- `ns`, built from the fields, with the cached offset and coordinate system of `l`
  unfoldable pub assemble : Bytes → Fields Real → Link Real → MachineState Real
  unfolding subtract_axes
  assemble word f l =
      let naxes : ℕ = if f.have_mpos then f.n_mpos % 256 else 0 in
      let derived : Bool = f.have_mpos && l.have_last_wco in
      let n : ℕ = if ltb f.n_mpos l.last_wco_count then f.n_mpos else l.last_wco_count in
      record (zeroed zero_real) {
        connected = true;
        status = word;
        naxes =
            if f.have_wpos then (if ltb naxes f.n_wpos then f.n_wpos % 256 else naxes) else naxes;
        mpos = if f.have_mpos then f.mpos else zero_axes;
        wpos =
            if f.have_wpos
            then f.wpos
            else if derived
            then subtract_axes n 0 f.mpos l.last_wco zero_axes
            else zero_axes;
        has_wpos = f.have_wpos || derived;
        feed = f.feed;
        speed = f.speed;
        has_table = f.have_table || f.have_table_abs;
        table_deg = if f.have_table || f.have_table_abs then f.table_deg else zero_real;
        table_abs_deg =
            if f.have_table_abs
            then f.table_abs_deg
            else if f.have_table
            then f.table_deg
            else zero_real;
        has_servo = f.have_servo;
        servo_deg = if f.have_servo then f.servo_deg else zero_real;
        wcs = if l.have_last_wcs then strncpy (grbl_wcs_len - 1) l.last_wcs else [];
      }

  -- the end of `parse_status_report`: the filtered log, `last_status_word`, and the new state
  unfoldable pub publish : Bytes → MachineState Real → ℕ → Core Real → Core Real
  publish raw ns now c =
      let l : Link Real = c.link in
      let changed : Bool =
        not (is_nil l.last_status_word) && not (str_eq l.last_status_word ns.status) in
      let logged : Shared Real =
        if changed || l.force_next_status_log then filtered_push raw c.shared else c.shared in
      record c {
        link = record l {
          force_next_status_log = false;
          last_status_word = strncpy (grbl_status_len - 1) ns.status;
        };
        shared = set_status ns (ms_since_boot now) logged;
      }

  -- from the first token on: `none` is `if (!tok) return;`
  unfoldable pub parse_tokens : List Bytes → Bytes → ℕ → Core Real → Core Real
  unfolding read_fields cache assemble publish
  parse_tokens [] raw now c = c
  parse_tokens (tok ∷ toks) raw now c =
      let word : Bytes = strncpy (grbl_status_len - 1) (status_name tok) in
      let f : Fields Real = read_fields toks no_fields in
      let l : Link Real = cache f c.link in
      publish raw (assemble word f l) now (record c { link = l })

  -- `parse_status_report`, at time `now`
  unfoldable pub parse_status_report : Bytes → ℕ → Core Real → Core Real
  unfolding parse_tokens
  parse_status_report raw now c =
      parse_tokens (tokens (codes "|") (strip_gt (strncpy 255 raw))) raw now c
