-- ===== src/Datatype.antt =====
-- src/fdmi_datatype.c, and the loops of src/fdmi.c that copy the blocks of a strided datatype into and
-- out of the eager buffer. Memory is a function from addresses to bytes, and an address is a number.
pub mod Copy
pub mod RoundTrip
use libibtl.Base.{ℕ, zero, suc, ◌+◌, ◌-◌, ◌*◌, ◌^◌, ◌&&◌, ltb, leb, ◌==◌, if◌then◌else◌}

pub data Dtype : Type 0 where
  int double float byte char usrdef : Dtype

-- `int` fields that a caller gives as non-negative numbers; `count` is at least 1
pub record Datatype : Type 0 where
  pub dtype : Dtype
  pub size : ℕ
  pub count : ℕ
  pub blength : ℕ
  pub stride : ℕ

-- the predefined FMI_BYTE
abbrev pub fmi_byte : Datatype
fmi_byte = record { dtype = Dtype.byte; size = 1; count = 1; blength = 1; stride = 0 }

-- the predefined FMI_DOUBLE
abbrev pub fmi_double : Datatype
fmi_double = record { dtype = Dtype.double; size = 8; count = 1; blength = 1; stride = 0 }

-- fdmi_datatype_size: the bytes of data of one element
unfoldable pub datatype_size : Datatype → ℕ
datatype_size d = d.blength * d.count * d.size

-- fdmi_type_vector: blocks that touch one another make one block
unfoldable pub type_vector : (count blocklength stride : ℕ) → (oldtype : Datatype) → Datatype
type_vector count blocklength stride oldtype =
    if blocklength == stride
    then record {
      dtype = Dtype.usrdef;
      size = oldtype.size;
      count = 1;
      blength = count * blocklength;
      stride = 0;
    }
    else record {
      dtype = Dtype.usrdef;
      size = oldtype.size;
      count = count;
      blength = blocklength;
      stride = stride;
    }

-- `reg_size` of fdmi.c: the bytes from the first to the last that `n` elements reach, as the code has it
unfoldable pub reg_size : Datatype → ℕ → ℕ
reg_size d n = (d.stride * (d.count - 1) + d.blength) * d.size * n

abbrev pub Memory : Type 0
Memory = ℕ → ℕ

-- memcpy of `n` bytes
unfoldable pub memcpy : (from : Memory) (source : ℕ) (to : Memory) (target n : ℕ) → Memory
memcpy from source to target n a =
    if leb target a && ltb a (target + n) then from (source + (a - target)) else to a

-- Where the two pointers stand, and the memory written so far.
pub record Cursor : Type 0 where
  pub target : ℕ
  pub source : ℕ
  pub memory : Memory

-- the body of the copy loops: one block of `len` bytes, and both pointers move on
unfoldable pub copy_block : (from : Memory) (len target_step source_step : ℕ) → Cursor → Cursor
copy_block from len target_step source_step c = record {
  target = c.target + target_step;
  source = c.source + source_step;
  memory = memcpy from c.source c.memory c.target len;
}

-- for (j = 0; j < rounds; j++)
unfoldable pub copy_blocks :
    (from : Memory) (len target_step source_step rounds : ℕ) → Cursor → Cursor
copy_blocks from len target_step source_step zero c = c
copy_blocks from len target_step source_step (suc n) c =
    copy_blocks from len target_step source_step n (copy_block from len target_step source_step c)

-- for (i = 0; i < elements; i++) for (j = 0; j < rounds; j++)
unfoldable pub copy_elements :
    (from : Memory) (len target_step source_step rounds elements : ℕ) → Cursor → Cursor
copy_elements from len target_step source_step rounds zero c = c
copy_elements from len target_step source_step rounds (suc n) c =
    copy_elements from len target_step source_step rounds n
      (copy_blocks from len target_step source_step rounds c)

-- The copy of fdmi_cpy_eager_buff and fdmi_cpy_eager_buff2: the eager buffer, from its address
-- `eager_buff` on, into the receive buffer.
unfoldable pub scatter :
    (from : Memory) (eager_buff : ℕ) (d : Datatype) (count : ℕ) (to : Memory) (recv_buff : ℕ)
    → Memory
unfolding copy_elements
scatter from eager_buff d count to recv_buff =
    if d.count == 1
    then memcpy from eager_buff to recv_buff (d.blength * d.size * count)
    else (copy_elements from (d.blength * d.size) (d.stride * d.size) (d.blength * d.size) d.count
        count (record { target = recv_buff; source = eager_buff; memory = to })).memory

-- The loop of fdmi_post_send_msg that fills the eager buffer; both pointers are left behind the data.
unfoldable pub gather :
    (from : Memory) (send_buff : ℕ) (d : Datatype) (count : ℕ) (to : Memory) (eager_buff : ℕ)
    → Cursor
unfolding copy_elements
gather from send_buff d count to eager_buff =
    copy_elements from (d.blength * d.size) (d.blength * d.size) (d.stride * d.size) d.count count
      (record { target = eager_buff; source = send_buff; memory = to })
