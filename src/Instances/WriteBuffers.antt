-- ===== src/Instances/WriteBuffers.antt =====
-- io::WriteBuffer as the buffers of src/lib/schwa/dr/writer.cc.
use libschwa.Prelude.{refl, arith}
use libschwa.Io.WriteBuffer.{WriteBuffer, create, copy_from, block_bytes}
use libschwa.Io.WriteBuffer.Contents.{contents, create-IsValid, buffer_out}
use libschwa.Io.WriteBuffer.Copy.{copy_from_lem}
use libschwa.Instances.{Buffers}

abbrev new_buffer : WriteBuffer
new_buffer = create 64 8 4096 8

pub write_buffers : Buffers buffer_out
unfolding buffer_out
write_buffers = record {
  create = new_buffer;
  copy_from = λ from to. (copy_from from to).1;
  create-IsValid = create-IsValid 64 8 4096 8 (omega arith) (omega arith);
  create_bytes = unfold create contents block_bytes in refl;
  copy_from-IsValid = λ from to q v. (copy_from_lem from to q v).0;
  copy_from_bytes = λ from to q v. (copy_from_lem from to q v).1;
}
