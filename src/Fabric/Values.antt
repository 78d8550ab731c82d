-- ===== src/Fabric/Values.antt =====
-- Values of the constants, as the headers of libfabric 2 give them, for the runs.
use libfatbat.Fabric.{Consts}

abbrev pub consts : Consts
consts = record {
  fi_msg = 0x2;
  fi_rma = 0x4;
  fi_tagged = 0x8;
  fi_read = 0x100;
  fi_write = 0x200;
  fi_recv = 0x400;
  fi_send = 0x800;
  fi_transmit = 0x800;
  fi_remote_read = 0x1000;
  fi_remote_write = 0x2000;
  fi_remote_cq_data = 0x20000;
  fi_rma_event = 0x1000000;
  fi_hmem = 0x40000000;
  fi_eagain = 11;
  fi_eavail = 259;
  fi_ecanceled = 125;
  fi_ebusy = 16;
  fi_success = 0;
}
