-- ===== src/DebugRt.antt =====
-- `CGroupDebugRT` and `CDebugRT` of rt_debug_cpp/src/rt_debug_types.h: the debugging groups, which
-- stand in the memory that the processes share. A pointer to a group is its index.
pub mod New
pub mod Laws
pub mod Init
pub mod Groups
use rt_debug_lib.Base.{
  ℕ, zero, suc, ◌+◌, ◌^◌, Bool, true, false, List, [], ◌∷◌, length, set, ltb, leb, if◌then◌else◌,
  Option, none, some, add32, Result, ok, err, Fault, assert, at, ◌>>=◌, ◌>>◌,
}
use rt_debug_lib.CString.{CStr, same, c_str, strcpy, strncpy}
use rt_debug_lib.Registry.{names}
use rt_debug_lib.Counters
use rt_debug_lib.Counters.{RtCounterGrp, trace_string_size}
use rt_debug_lib.Tracer
use rt_debug_lib.Tracer.{TraceGroup}
use rt_debug_lib.Logger
use rt_debug_lib.Logger.{LogGroup}
use rt_debug_lib.ProfilerGroup
use rt_debug_lib.ProfilerGroup.{ProfilerGroup}

-- MAX_GROUP_NUM of api/rt_debug_defs.h
abbrev pub max_group_num : ℕ
max_group_num = 10

pub record GroupDebugRt : Type 0 where
  pub logger : LogGroup
  pub profiler : ProfilerGroup
  pub tracer : TraceGroup
  pub event_counters : RtCounterGrp
  pub group_name : CStr

pub record DebugRt : Type 0 where
  pub num_alloc_groups : ℕ
  pub active : Bool
  pub trace_collected : Bool
  pub debug_groups : List GroupDebugRt

-- CGroupDebugRT::Reset; `trace_buf` is where the buffer of the traces stands in this process.
unfoldable pub reset_group : ℕ → Bool → GroupDebugRt → Result GroupDebugRt
reset_group trace_buf attach g = do
  logger ← Logger.reset attach g.logger
  tracer ← Tracer.reset attach trace_buf g.tracer
  ok (record g {
    logger = logger;
    profiler = ProfilerGroup.reset attach g.profiler;
    tracer = tracer;
    event_counters = Counters.reset attach g.event_counters;
  })

-- CGroupDebugRT::Init
unfoldable pub init_group : ℕ → CStr → GroupDebugRt → Result GroupDebugRt
unfolding reset_group
init_group trace_buf group_name g = do
  g' ← reset_group trace_buf false g
  logger ← Logger.set_group_name group_name g'.logger
  profiler ← ProfilerGroup.set_group_name group_name g'.profiler
  tracer ← Tracer.set_group_name group_name g'.tracer
  counters ← Counters.set_group_name group_name g'.event_counters
  ok (record {
    logger = logger;
    profiler = profiler;
    tracer = tracer;
    event_counters = counters;
    group_name = strncpy trace_string_size group_name;
  })

-- CGroupDebugRT::GetGrpName into a buffer of `size` bytes
unfoldable pub get_grp_name : ℕ → GroupDebugRt → Result CStr
get_grp_name size g = do name ← c_str trace_string_size g.group_name; strcpy size name

unfoldable pub set_data_collection : Bool → DebugRt → DebugRt
set_data_collection start_ind d = record d { active = start_ind }

abbrev pub is_data_collected : DebugRt → Bool
is_data_collected d = d.active

-- The loop of Init and Attach over `n` groups from `i` on; `trace_buf i` belongs to group `i`. A mapping of a
-- file that is too short for all groups ends before the loop does.
unfoldable pub reset_groups :
    (ℕ → ℕ) → Bool → ℕ → ℕ → List GroupDebugRt → Result (List GroupDebugRt)
unfolding reset_group
reset_groups trace_buf attach zero i gs = ok gs
reset_groups trace_buf attach (suc n) i [] = err Fault.out_of_bounds
reset_groups trace_buf attach (suc n) i (g ∷ gs) = do
  g' ← reset_group (trace_buf i) attach g
  gs' ← reset_groups trace_buf attach n (i + 1) gs
  ok (g' ∷ gs')

-- CDebugRT::Init and CDebugRT::Attach
unfoldable pub init : (ℕ → ℕ) → DebugRt → Result DebugRt
unfolding reset_groups
init trace_buf d = do
  groups ← reset_groups trace_buf false max_group_num 0 d.debug_groups
  ok (record {
    num_alloc_groups = 0;
    active = false;
    trace_collected = false;
    debug_groups = groups;
  })

unfoldable pub attach : (ℕ → ℕ) → DebugRt → Result DebugRt
unfolding reset_groups
attach trace_buf d = do
  groups ← reset_groups trace_buf true max_group_num 0 d.debug_groups
  ok (record d { debug_groups = groups })

unfoldable pub get_debug_grp : ℕ → DebugRt → Result GroupDebugRt
get_debug_grp grp_num d = do assert (ltb grp_num d.num_alloc_groups); at d.debug_groups grp_num

abbrev pub get_num_grps : DebugRt → ℕ
get_num_grps d = d.num_alloc_groups

abbrev pub grp_name : GroupDebugRt → CStr
grp_name g = g.group_name

-- The loop of AllocDbgGrp over `n` groups from `i` on, which copies each name into tmp_str.
unfoldable pub find_group : CStr → ℕ → List GroupDebugRt → ℕ → Result (Option ℕ)
unfolding get_grp_name
find_group group_name zero gs i = ok none
find_group group_name (suc n) [] i = err Fault.out_of_bounds
find_group group_name (suc n) (g ∷ gs) i = do
  tmp_str ← get_grp_name trace_string_size g
  if same tmp_str group_name then ok (some i) else find_group group_name n gs (i + 1)

-- AllocDbgGrp
unfoldable pub alloc_dbg_grp : (ℕ → ℕ) → CStr → DebugRt → Result (ℕ × DebugRt)
unfolding init_group find_group
alloc_dbg_grp trace_buf group_name d = do
  known ← find_group group_name d.num_alloc_groups d.debug_groups 0
  elim known [
    | some i ↦ ok (i, d)
    | none ↦
        let i = d.num_alloc_groups in
        do
          assert (leb (add32 i 1) max_group_num)
          g ← at d.debug_groups i
          g' ← init_group (trace_buf i) group_name g
          ok (i, record d { num_alloc_groups = add32 i 1; debug_groups = set d.debug_groups i g' })
  ]

abbrev pub group_names : DebugRt → List CStr
group_names d = names grp_name d.num_alloc_groups d.debug_groups
