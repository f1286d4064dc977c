-- ===== src/Learning/Raw/Refines.antt =====
-- RawLearningSwitch against MultiLearningSwitch (examples/controller/raw/RawApps.hh and
-- examples/controller/msg/MsgApps.hh) on switches that speak OpenFlow 1.0.
use libfluid.Learning
use libfluid.Learning.{
  L2Table, PacketIn, Message, flow_mod10, flow_mod13, packet_out, multipart_request_flow,
  controller, any, number,
}
use libfluid.Learning.Raw
use libfluid.Learning.Raw.{packet_out_bytes}
