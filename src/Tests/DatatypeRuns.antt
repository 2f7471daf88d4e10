-- ===== src/Tests/DatatypeRuns.antt =====
-- A strided type: two blocks of two bytes, three bytes apart (src/fdmi_datatype.c).
use libibtl.Base.{◌+◌, ◌*◌, ◌≡◌, arith}
use libibtl.Datatype.{Datatype, Dtype, Memory, scatter, gather, datatype_size}
use libibtl.Datatype.RoundTrip.{scatter_out, gather-target}

abbrev strided : Datatype
strided = record { dtype = Dtype.usrdef; size = 1; count = 2; blength = 2; stride = 3 }

abbrev letters : Memory
letters a = a + 65

abbrev zeros : Memory
zeros a = 0

-- the byte between the two blocks
scatter_out_example : scatter letters 0 strided 1 zeros 200 202 ≡ 0
scatter_out_example =
    scatter_out strided 1 (λ e. omega (arith, e)) letters zeros 0 200 202
      (λ k o h i e. omega (arith, h, i, e))

gather-target_example :
    (gather letters 100 strided 2 zeros 0).target ≡ 0 + 2 * datatype_size strided
gather-target_example = gather-target letters 100 strided 2 zeros 0
